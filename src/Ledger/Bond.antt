-- ===== src/Ledger/Bond.antt =====
-- daemon/ledger/settlement.go: the bond's lock in `OpenOptimistic`, made only if there is a bond.
use cerberus.Base.{
  ℕ, ◌+◌, ◌≤◌, ◌<◌, ◌≡◌, ◌≢◌, refl, ap, false, some, String, arith, ok, ltb, if◌then◌else◌, str_eq,
  str_eq_iff, Bool-cases, inl, inr, ltb→lt,
}
use cerberus.Store.Bucket.{lookup}
use cerberus.Ledger.Types.{
  LedgerKey, utxo, meta_next, utxo_json, Utxo, ledger_key_order, same_key, is_utxo_key,
}
use cerberus.Ledger.Monad.{pure}
use cerberus.Ledger.Settlement.{lock_from_input_locked, escrow_owner}
use cerberus.Ledger.Live.{View, live}
use cerberus.Ledger.Amounts.{Measure, supply, claims, owned, coin, amount}
use cerberus.Ledger.Sound.{Sound}
use cerberus.Ledger.Payment.{HasRoom, paid, paid-Sound, amount-paid, lock-live, lookup-paid}

-- The UTXO `u` under `input` can pay `amt` for its owner.
abbrev pub Covers : ℕ → Utxo → ℕ → View → Type 0
Covers input u amt x = (lookup (utxo input) x.entries ≡ some (utxo_json u)) × (amt ≤ u.value)

-- A bond is locked only if there is one.
unfoldable pub bonded : ℕ → Utxo → ℕ → View → View
bonded input w bond x = if ltb 0 bond then paid input w escrow_owner bond x else x

pub coin-zero : (c : Measure) (o : String) → coin c o 0 ≡ 0
coin-zero supply o = refl
coin-zero claims o = refl
coin-zero (owned name) o = ground arith

module _ (input : ℕ) (w : Utxo) (bond : ℕ) (x : View) where
  abbrev pub BondCovered : Type 0
  BondCovered = 0 < bond → Covers input w bond x

  pub bonded-live :
      BondCovered
      → (if ltb 0 bond then lock_from_input_locked input w.owner bond else pure tt) (live x)
        ≡ (ok tt, live (bonded input w bond x))
  unfolding bonded
  bonded-live h = elim (Bool-cases (ltb 0 bond)) [
    | inl e ↦ let k = h (ltb→lt _ _ e) in rw (e, lock-live input w escrow_owner bond x k.0 k.1)
    | inr e ↦ rw e
  ]

  pub bonded-Sound : HasRoom 2 x → Sound x → Sound (bonded input w bond x)
  unfolding bonded
  bonded-Sound room s = elim (Bool-cases (ltb 0 bond)) [
    | inl e ↦ rw e (paid-Sound input w escrow_owner bond x room s)
    | inr e ↦ rw e s
  ]

  pub amount-bonded :
      HasRoom 2 x
      → Sound x
      → BondCovered
      → (c : Measure)
      → amount c (bonded input w bond x).entries + coin c w.owner bond
        ≡ amount c x.entries + coin c escrow_owner bond
  unfolding bonded
  amount-bonded room s h c = elim (Bool-cases (ltb 0 bond)) [
    | inl e ↦
        let k = h (ltb→lt _ _ e) in rw e (amount-paid input w escrow_owner bond x c room s k.0 k.1)
    | inr e ↦ rw e (
        omega (
          arith,
          ap (coin c w.owner) (zero e),
          ap (coin c escrow_owner) (zero e),
          coin-zero c w.owner,
          coin-zero c escrow_owner,
        ))
  ]
    where
      zero : ltb 0 bond ≡ false → bond ≡ 0
      zero e = ground arith

  pub lookup-bonded :
      (k : LedgerKey)
      → Sound x
      → is_utxo_key k ≡ false
      → same_key meta_next k ≡ false
      → lookup k (bonded input w bond x).entries ≡ lookup k x.entries
  unfolding bonded
  lookup-bonded k s plain other = elim (Bool-cases (ltb 0 bond)) [
    | inl e ↦ rw e (lookup-paid input w escrow_owner bond x k s plain other)
    | inr e ↦ rw e
  ]

-- A name that is not the escrow's has no part in escrow.
pub no_escrow : (o : String) (n : ℕ) → o ≢ escrow_owner → coin (owned escrow_owner) o n ≡ 0
no_escrow o n h = elim (Bool-cases (str_eq o escrow_owner)) [
  | inl e ↦ absurd (h ((str_eq_iff o escrow_owner).0 e))
  | inr e ↦ rw e
]
