-- ===== src/Ledger/Faults.antt =====
-- daemon/ledger: what is left behind when the store fails in the middle of a method.
use cerberus.Base.{
  ℕ, ◌+◌, ◌%◌, ◌≤◌, ◌<◌, ◌≡◌, ◌∙◌, Bool, true, false, some, List, [], ◌∷◌, String, arith, err,
  u64_mod, ltb, ◌==◌, le→leb, Bool-cases, inl, inr,
}
use cerberus.Store.{fault}
use cerberus.Store.Bucket.{lookup, remove}
use cerberus.Ledger.Types.{
  utxo, pending, utxo_json, pending_json, Utxo, PendingSettlement, Ledger, ledger_key_order,
  store_error,
}
use cerberus.Ledger.Utxos.{settle, mint_locked}
use cerberus.Ledger.Settlement.{finalize, release_escrow_locked, window_elapsed, is_pending}
use cerberus.Ledger.Live.{View, live, minted}
use cerberus.Ledger.Amounts.{supply, owned, coin, amount, amount-spent, amount-minted}
use cerberus.Ledger.Sound.{Sound}
use cerberus.Ledger.Finalize.{pending-minted}
use cerberus.Ledger.Payment.{HasRoom}
use cerberus.Ledger.Claims.{stake}

-- A live ledger but for the store's next transactions.
abbrev pub faulty : List Bool → View → Ledger
faulty fs x = record {
  store = record { opened = true; entries = x.entries; faults = fs };
  next = x.next;
  block = x.block;
  enabled = true;
}

module _ (tx now : ℕ) (p : PendingSettlement) (x : View) where
  abbrev pub FinalizeInflates : Type 0
  FinalizeInflates =
      (y : View) × (finalize tx now (faulty (false ∷ false ∷ false ∷ true ∷ []) x)
        ≡ (err (store_error fault), live y))
      × (amount supply y.entries ≡ amount supply x.entries + stake p)
      × ((who : String)
          → amount (owned who) y.entries
            ≡ amount (owned who) x.entries + coin (owned who) p.provider (stake p))
      × (lookup (pending tx) y.entries ≡ some (pending_json p))

  -- If the store fails when `Finalize` comes to release the escrow, the call returns an error, but
  -- the provider has been paid payment and bond out of nothing: nobody else's holdings changed, not
  -- those of the escrow either, and the claim is still pending.
  pub finalize_fault_inflates :
      Sound x
      → HasRoom 1 x
      → lookup (pending tx) x.entries ≡ some (pending_json p)
      → is_pending p.state ≡ true
      → window_elapsed p now ≡ true
      → 0 < stake p
      → stake p < u64_mod
      → FinalizeInflates
  unfolding finalize mint_locked release_escrow_locked minted
  finalize_fault_inflates s room found due_now elapsed pos fits = (
    minted p.provider (stake p) x,
    rw (found, due_now, elapsed, small, nonzero),
    unfold minted in amount-minted supply p.provider (stake p) x (s.fresh x.next (omega arith)),
    (λ who.
        unfold minted in
        amount-minted (owned who) p.provider (stake p) x (s.fresh x.next (omega arith))),
    pending-minted p.provider (stake p) tx x ∙ found,
  )
    where
      small : stake p % u64_mod ≡ stake p
      small = omega arith

      nonzero : (stake p == 0) ≡ false
      nonzero = ground arith

abbrev pub FaultDestroys : ℕ → Utxo → String → ℕ → View → Type 0
FaultDestroys input u to amt x =
    (y : View) × (settle input to amt (faulty (false ∷ false ∷ true ∷ []) x)
      ≡ (err (store_error fault), live y))
    × (amount supply y.entries + u.value ≡ amount supply x.entries)

-- If the store fails after `Settle` deleted its input, the call returns an error and the input's
-- whole value is gone.
settle-FaultDestroys :
    (input : ℕ) (u : Utxo) (to : String) (amt : ℕ) (x : View)
    → lookup (utxo input) x.entries ≡ some (utxo_json u)
    → amt ≤ u.value
    → FaultDestroys input u to amt x
unfolding settle
settle-FaultDestroys input u to amt x found le = (
  record x { entries = remove (utxo input) x.entries; next = (x.next + 1) % u64_mod },
  elim (Bool-cases (ltb amt u.value)) [
    | inl e ↦ rw (found, le→leb _ _ le, e)
    | inr e ↦ rw (found, le→leb _ _ le, e)
  ],
  amount-spent supply input u x found,
)
