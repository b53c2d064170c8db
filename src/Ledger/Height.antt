-- ===== src/Ledger/Height.antt =====
-- daemon/ledger: the height that AdvanceBlock raises and that opening a settlement keeps.
use cerberus.Base.{
  ℕ, ◌+◌, ◌%◌, ◌≤◌, ◌≡◌, refl, sym, ◌∙◌, inl, inr, Bool-cases, String, arith, ok, u64_mod, ltb,
}
use cerberus.Store.Bucket.{lookup, lookup-put_entry, put_entry, Distinct-put_entry}
use cerberus.Ledger.Types.{
  LedgerKey, utxo, pending, meta_block, meta_next_tx, counter, Utxo, ledger_key_order, same_key,
}
use cerberus.Ledger.Utxos.{advance_block}
use cerberus.Ledger.Settlement.{escrow_owner}
use cerberus.Ledger.Live.{View, live, minted, changed}
use cerberus.Ledger.Amounts.{Measure, supply, claims, owned, amount, amount-put_weightless}
use cerberus.Ledger.Sound.{Sound}
use cerberus.Ledger.Payment.{HasRoom, paid, next-paid}
use cerberus.Ledger.Bond.{bonded}
use cerberus.Ledger.Claims.{Solvent}

abbrev pub raised : ℕ → View → View
raised n x = record x {
  entries = put_entry meta_block (counter ((x.block + n) % u64_mod)) x.entries;
  block = (x.block + n) % u64_mod;
}

pub advance_block-live :
    (n : ℕ) (x : View)
    → advance_block n (live x) ≡ (ok ((x.block + n) % u64_mod), live (raised n x))
unfolding advance_block
advance_block-live n x = refl

pub amount-raised :
    (c : Measure) (n : ℕ) (x : View) → amount c (raised n x).entries ≡ amount c x.entries
amount-raised c n x = amount-put_weightless c meta_block _ x.entries (λ w. refl)

pub pending-raised :
    (n tx : ℕ) (x : View) → lookup (pending tx) (raised n x).entries ≡ lookup (pending tx) x.entries
unfolding same_key
pending-raised n tx x =
    ground (
      arith,
      lookup-put_entry meta_block (pending tx) (counter ((x.block + n) % u64_mod)) x.entries,
    )

raised-Sound : (n : ℕ) (x : View) → Sound x → Sound (raised n x)
unfolding same_key
raised-Sound n x s =
    let put = λ (k : LedgerKey).
      lookup-put_entry meta_block k (counter ((x.block + n) % u64_mod)) x.entries in
    record {
      distinct = Distinct-put_entry _ _ _ s.distinct;
      fresh = λ id h. ground (arith, put (utxo id), s.fresh id);
      fresh_tx = λ tx h. ground (arith, put (pending tx), put meta_next_tx, s.fresh_tx tx);
    }

pub raised-Solvent : (n : ℕ) (x : View) → Solvent x → Solvent (raised n x)
raised-Solvent n x v = record {
  sound = raised-Sound n x v.sound;
  filed = λ tx p h. v.filed tx p (sym (pending-raised n tx x) ∙ h);
  backed =
      omega (arith, amount-raised claims n x, amount-raised (owned escrow_owner) n x, v.backed);
  bounded = omega (arith, amount-raised supply n x, v.bounded);
}

block-paid :
    (input : ℕ) (u : Utxo) (to : String) (amt : ℕ) (x : View)
    → (paid input u to amt x).block ≡ x.block
unfolding paid minted changed
block-paid input u to amt x = ground arith

-- What opening a settlement does to the height and the counter of ids.
pub bonded_counts :
    (payment_input : ℕ) (u : Utxo) (payment bond_input : ℕ) (w : Utxo) (bond : ℕ) (x : View)
    → HasRoom 4 x
    → let y = bonded bond_input w bond (paid payment_input u escrow_owner payment x) in
      (y.block ≡ x.block) × (y.next ≤ x.next + 4)
unfolding bonded
bonded_counts payment_input u payment bond_input w bond x room =
    let once = next-paid payment_input u escrow_owner payment x (omega arith) in
    let same = block-paid payment_input u escrow_owner payment x in
    let first : View = paid payment_input u escrow_owner payment x in
    elim (Bool-cases (ltb 0 bond)) [
      | inl e ↦ rw e (
        block-paid bond_input w escrow_owner bond first ∙ same,
        omega (arith, once, next-paid bond_input w escrow_owner bond first (omega (arith, once))),
      )
      | inr e ↦ rw e (same, omega (arith, once))
    ]
