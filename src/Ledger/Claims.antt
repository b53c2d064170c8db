-- ===== src/Ledger/Claims.antt =====
-- daemon/ledger/settlement.go: the books of a ledger with pending claims, and closing a claim.
use cerberus.Base.{
  ℕ, ◌+◌, ◌≤◌, ◌<◌, ◌≡◌, refl, sym, ◌∙◌, true, false, some, String, arith, ok, u64_mod, ltb,
  if◌then◌else◌, Bool-cases, inl, inr, [], ◌∷◌,
}
use cerberus.Store.Bucket.{Entries, lookup, lookup-put_entry, total-remove}
use cerberus.Ledger.Types.{
  LedgerKey, utxo, pending, computetx, meta_next, meta_block, meta_next_tx, meta_next_compute_tx,
  Value, utxo_json, pending_json, compute_json, counter, junk, PendingSettlement, ledger_key_order,
  same_key, is_utxo_key,
}
use cerberus.Ledger.Settlement.{release_escrow_locked, put_pending_locked, escrow_owner, is_pending}
use cerberus.Ledger.Live.{View, live, claimed, next_tx, put_pending_locked-live}
use cerberus.Ledger.Amounts.{
  Measure, supply, claims, owned, coin, due, weigh, amount, amount-claimed_old,
}
use cerberus.Ledger.Sound.{Sound, claimed-Sound}
use cerberus.Ledger.Release.{release_escrow-live}

-- A claim is filed under its own number.
abbrev pub Filed : View → Type 0
Filed x =
    (tx : ℕ) (p : PendingSettlement)
    → lookup (pending tx) x.entries ≡ some (pending_json p)
    → p.tx ≡ tx

-- The escrow covers what the pending claims are owed, and all value fits a uint64.
pub record Solvent (x : View) : Type 0 where
  pub sound : Sound x
  pub filed : Filed x
  pub backed : amount claims x.entries ≤ amount (owned escrow_owner) x.entries
  pub bounded : amount supply x.entries < u64_mod

abbrev pub stake : PendingSettlement → ℕ
stake p = p.payment + p.bond

weigh-owned-le :
    (name : String) (k : LedgerKey) (v : Value) → weigh (owned name) k v ≤ weigh supply k v
weigh-owned-le name (utxo id) (utxo_json u) = ground arith
weigh-owned-le name (utxo id) (pending_json p) = omega arith
weigh-owned-le name (utxo id) (compute_json p) = omega arith
weigh-owned-le name (utxo id) (counter p) = omega arith
weigh-owned-le name (utxo id) (junk p) = omega arith
weigh-owned-le name (pending tx) (pending_json p) = omega arith
weigh-owned-le name (pending tx) (utxo_json p) = omega arith
weigh-owned-le name (pending tx) (compute_json p) = omega arith
weigh-owned-le name (pending tx) (counter p) = omega arith
weigh-owned-le name (pending tx) (junk p) = omega arith
weigh-owned-le name (computetx id) v = omega arith
weigh-owned-le name meta_next v = omega arith
weigh-owned-le name meta_block v = omega arith
weigh-owned-le name meta_next_tx v = omega arith
weigh-owned-le name meta_next_compute_tx v = omega arith

-- Nobody owns more than there is.
pub owned-le-supply :
    (name : String) (m : Entries LedgerKey Value) → amount (owned name) m ≤ amount supply m
owned-le-supply name [] = omega arith
owned-le-supply name ((k, v) ∷ m) = omega (arith, weigh-owned-le name k v, owned-le-supply name m)

-- A pending claim's stake is covered, and so does not wrap.
pub stake-covered :
    (tx : ℕ) (p : PendingSettlement) (x : View)
    → Solvent x
    → lookup (pending tx) x.entries ≡ some (pending_json p)
    → is_pending p.state ≡ true
    → (stake p ≤ amount (owned escrow_owner) x.entries) × (stake p < u64_mod)
stake-covered tx p x v found due_now =
    let part = total-remove (weigh claims) (pending tx) (pending_json p) x.entries found in
    let owed : due claims p ≡ stake p = rw due_now in
    (
      omega (arith, part, v.backed),
      omega (arith, part, v.backed, v.bounded, owned-le-supply escrow_owner x.entries),
    )

-- Claims in use are numbered below the counter.
pub filed_below :
    (tx : ℕ) (p : PendingSettlement) (x : View)
    → Sound x
    → lookup (pending tx) x.entries ≡ some (pending_json p)
    → tx < next_tx x
filed_below tx p x s found = elim (Bool-cases (ltb tx (next_tx x))) [
  | inl h ↦ ground arith
  | inr h ↦ cc (sym (s.fresh_tx tx (ground arith)), found)
]

-- `y` is `x` with the claim `p` replaced by `q` and its stake gone from escrow.
pub record Closed (p q : PendingSettlement) (x y : View) : Type 0 where
  pub amounts :
      (c : Measure)
      → amount c y.entries + coin c escrow_owner (stake p) + due c p ≡ amount c x.entries + due c q
  pub others :
      (k : LedgerKey)
      → is_utxo_key k ≡ false
      → lookup k y.entries
        ≡ (if same_key (pending p.tx) k then some (pending_json q) else lookup k x.entries)
  pub sound : Sound y
  pub next : y.next ≡ x.next
  pub block : y.block ≡ x.block

-- The common end of `Finalize` and `Challenge`.
pub close_claim :
    (p q : PendingSettlement) (x : View)
    → Sound x
    → lookup (pending p.tx) x.entries ≡ some (pending_json p)
    → q.tx ≡ p.tx
    → stake p ≤ amount (owned escrow_owner) x.entries
    → (z : View) × (y : View) × (release_escrow_locked (stake p) (live x) ≡ (ok tt, live z))
      × (put_pending_locked q (live z) ≡ (ok tt, live y))
      × Closed p q x y
close_claim p q x s found same le =
    let (z, e, r) = release_escrow-live (stake p) x s le in
    let kept : lookup (pending q.tx) z.entries ≡ some (pending_json p) =
      rw same (r.others (pending p.tx) refl ∙ found) in
    let below : q.tx < next_tx z = filed_below q.tx p z r.sound kept in
    (
      z,
      claimed q z,
      e,
      put_pending_locked-live q z,
      record {
        amounts = λ c. omega (arith, r.amounts c, amount-claimed_old c q p z kept);
        others = λ k h.
            rw (lookup-put_entry (pending q.tx) k (pending_json q) z.entries, same, r.others k h);
        sound = claimed-Sound q z below r.sound;
        next = r.next;
        block = r.block;
      },
    )
