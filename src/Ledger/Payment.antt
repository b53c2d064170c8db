-- ===== src/Ledger/Payment.antt =====
-- daemon/ledger: a UTXO spent on a payment, as `settle` and `lock_from_input_locked` do it.
use cerberus.Base.{
  ℕ, ◌+◌, ◌-◌, ◌≤◌, ◌<◌, ◌≡◌, refl, ap, false, none, some, String, arith, ok, err, u64_mod, ltb,
  ◌==◌, sym, if◌then◌else◌, str_eq_iff, Bool-cases, inl, inr, le→leb,
}
use cerberus.Store.Bucket.{lookup, lookup-remove}
use cerberus.Ledger.Types.{
  LedgerKey, utxo, meta_next, utxo_json, Utxo, ledger_key_order, same_key, is_utxo_key,
  no_such_utxo,
}
use cerberus.Ledger.Monad.{◌>>=◌, ◌>>◌}
use cerberus.Ledger.Utxos.{settle}
use cerberus.Ledger.Settlement.{lock_from_input_locked, escrow_owner}
use cerberus.Ledger.Live.{
  View, live, minted, changed, spent, mint_locked-live, mint_unit-live, mint_change-live,
}
use cerberus.Ledger.Amounts.{
  Measure, supply, claims, owned, coin, amount, coin-add, amount-minted, amount-spent,
}
use cerberus.Ledger.Sound.{Sound, minted-Sound, spent-Sound, next-minted, lookup-minted}

-- The input is gone, its change is back with its owner, and `to` has `amt`.
unfoldable pub paid : ℕ → Utxo → String → ℕ → View → View
paid input u to amt x = minted to amt (changed u amt (spent input x))

-- Room for `k` more ids below the end of the counter's range.
abbrev pub HasRoom : ℕ → View → Type 0
HasRoom k x = x.next + k < u64_mod

changed-Sound : (u : Utxo) (amt : ℕ) (x : View) → HasRoom 1 x → Sound x → Sound (changed u amt x)
unfolding changed
changed-Sound u amt x room s = elim (Bool-cases (ltb amt u.value)) [
  | inl e ↦ rw e (minted-Sound u.owner (u.value - amt) x room s)
  | inr e ↦ rw e s
]

next-changed :
    (u : Utxo) (amt : ℕ) (x : View)
    → HasRoom 1 x
    → (x.next ≤ (changed u amt x).next) × ((changed u amt x).next ≤ x.next + 1)
unfolding changed
next-changed u amt x room = ground (arith, next-minted u.owner (u.value - amt) x room)

amount-changed :
    (c : Measure) (u : Utxo) (amt : ℕ) (x : View)
    → lookup (utxo x.next) x.entries ≡ none
    → amt ≤ u.value
    → amount c (changed u amt x).entries + coin c u.owner amt
      ≡ amount c x.entries + coin c u.owner u.value
unfolding changed
amount-changed c u amt x h le = elim (Bool-cases (ltb amt u.value)) [
  | inl e ↦ rw e (
      omega (
        arith,
        amount-minted c u.owner (u.value - amt) x h,
        coin-add c u.owner (u.value - amt) amt,
        ap (coin c u.owner) rest,
      ))
  | inr e ↦ rw e (ap (λ v. amount c x.entries + coin c u.owner v) (ground arith))
]
  where
    rest : (u.value - amt) + amt ≡ u.value
    rest = omega arith

module _ (input : ℕ) (u : Utxo) (to : String) (amt : ℕ) (x : View) where
  pub paid-Sound : HasRoom 2 x → Sound x → Sound (paid input u to amt x)
  unfolding paid
  paid-Sound room s =
      minted-Sound to amt _ (omega (arith, next-changed u amt (spent input x) (omega arith)))
        (changed-Sound u amt (spent input x) (omega arith) (spent-Sound input x s))

  pub next-paid :
      HasRoom 2 x
      → (x.next ≤ (paid input u to amt x).next) × ((paid input u to amt x).next ≤ x.next + 2)
  unfolding paid
  next-paid room = ground (
    arith,
    next-changed u amt (spent input x),
    next-minted to amt (changed u amt (spent input x)),
  )

  pub amount-paid :
      (c : Measure)
      → HasRoom 2 x
      → Sound x
      → lookup (utxo input) x.entries ≡ some (utxo_json u)
      → amt ≤ u.value
      → amount c (paid input u to amt x).entries + coin c u.owner amt
        ≡ amount c x.entries + coin c to amt
  unfolding paid
  amount-paid c room s found le =
      let s1 = spent-Sound input x s in
      let s2 = changed-Sound u amt (spent input x) (omega arith) s1 in
      omega (
        arith,
        amount-spent c input u x found,
        amount-changed c u amt (spent input x) (s1.fresh x.next (omega arith)) le,
        amount-minted c to amt (changed u amt (spent input x)) (s2.fresh _ (omega arith)),
      )

  pub settle-live :
      lookup (utxo input) x.entries ≡ some (utxo_json u)
      → amt ≤ u.value
      → settle input to amt (live x)
        ≡ (ok (changed u amt (spent input x)).next, live (paid input u to amt x))
  unfolding settle paid
  settle-live found le = rw (
    found,
    le→leb _ _ le,
    ◌>>◌,
    mint_change-live u amt (spent input x),
    mint_locked-live to amt (changed u amt (spent input x)),
  )

  pub lock-live :
      lookup (utxo input) x.entries ≡ some (utxo_json u)
      → amt ≤ u.value
      → lock_from_input_locked input u.owner amt (live x)
        ≡ (ok tt, live (paid input u escrow_owner amt x))
  unfolding lock_from_input_locked paid
  lock-live found le = rw (
    found,
    (str_eq_iff u.owner u.owner).1 refl,
    le→leb _ _ le,
    ◌>>=◌,
    ◌>>◌,
    mint_change-live u amt (spent input x),
    mint_unit-live escrow_owner amt (changed u amt (spent input x)),
  )

  -- A payment writes UTXOs and the id counter only.
  pub lookup-paid :
      (k : LedgerKey)
      → Sound x
      → is_utxo_key k ≡ false
      → same_key meta_next k ≡ false
      → lookup k (paid input u to amt x).entries ≡ lookup k x.entries
  unfolding paid changed same_key
  lookup-paid k s plain other = ground (
    arith,
    lookup-minted to amt (changed u amt (spent input x)) k,
    lookup-minted u.owner (u.value - amt) (spent input x) k,
    lookup-remove (utxo input) k x.entries s.distinct,
  )

  -- The UTXOs that were there stay, all but the input.
  pub lookup-paid_other :
      (id : ℕ)
      → HasRoom 2 x
      → Sound x
      → id < x.next
      → lookup (utxo id) (paid input u to amt x).entries
        ≡ (if input == id then none else lookup (utxo id) x.entries)
  unfolding paid changed same_key
  lookup-paid_other id room s below = ground (
    arith,
    lookup-minted to amt (changed u amt (spent input x)) (utxo id),
    lookup-minted u.owner (u.value - amt) (spent input x) (utxo id),
    next-changed u amt (spent input x),
    lookup-remove (utxo input) (utxo id) x.entries s.distinct,
  )

-- UTXOs in use are numbered below the counter.
pub input_below :
    (input : ℕ) (u : Utxo) (x : View)
    → Sound x
    → lookup (utxo input) x.entries ≡ some (utxo_json u)
    → input < x.next
input_below input u x s found = elim (Bool-cases (ltb input x.next)) [
  | inl h ↦ ground arith
  | inr h ↦ cc (sym (s.fresh input (ground arith)), found)
]

module _ (input : ℕ) (u : Utxo) (to : String) (amt : ℕ) (x : View) where
  abbrev pub SettlePays : Type 0
  SettlePays =
      (id : ℕ) × (y : View) × (settle input to amt (live x) ≡ (ok id, live y))
      × Sound y
      × (amount supply y.entries ≡ amount supply x.entries)
      × (amount claims y.entries ≡ amount claims x.entries)
      × ((who : String)
          → amount (owned who) y.entries + coin (owned who) u.owner amt
            ≡ amount (owned who) x.entries + coin (owned who) to amt)
      × (lookup (utxo input) y.entries ≡ none)

  -- On a live ledger a covered settlement goes through: `to` gains `amt` and the input's owner
  -- loses it, nobody else's holding, the supply and the claims stay, the input is spent for good,
  -- and the ledger stays well formed.
  pub settle_pays :
      Sound x
      → HasRoom 2 x
      → lookup (utxo input) x.entries ≡ some (utxo_json u)
      → amt ≤ u.value
      → SettlePays
  settle_pays s room found le =
      let moved = λ (c : Measure). amount-paid input u to amt x c room s found le in
      (
        (changed u amt (spent input x)).next,
        paid input u to amt x,
        settle-live input u to amt x found le,
        paid-Sound input u to amt x room s,
        omega (arith, moved supply),
        omega (arith, moved claims),
        (λ who. moved (owned who)),
        ground (
          arith,
          lookup-paid_other input u to amt x input room s (input_below input u x s found),
        ),
      )

  -- Spent exactly once: after a settlement the same input is refused, whatever it is to pay.
  settle_twice :
      Sound x
      → HasRoom 2 x
      → lookup (utxo input) x.entries ≡ some (utxo_json u)
      → amt ≤ u.value
      → (again : String) (more : ℕ)
      → settle input again more (settle input to amt (live x)).1
        ≡ (err no_such_utxo, (settle input to amt (live x)).1)
  unfolding settle
  settle_twice s room found le again more = rw (settle-live input u to amt x found le, gone)
    where
      gone : lookup (utxo input) (paid input u to amt x).entries ≡ none
      gone =
          ground
            (arith, lookup-paid_other input u to amt x input room s (input_below input u x s found))
