-- ===== src/Ledger/TxLog/Order.antt =====
-- daemon/ledger/txlog.go: what recording leaves alone, and the order in which runs are listed.
use cerberus.Base.{
  ℕ, suc, ◌+◌, ◌%◌, ◌≤◌, ◌<◌, ◌≡◌, refl, ◌∙◌, List, [], ◌∷◌, some, ok, arith, u64_mod, ltb, length,
  take, zero, ◌&&◌, ◌++◌, map, if◌then◌else◌, Bool-cases, inl, inr,
}
use cerberus.Store
use mathlib.Core.List.{Perm}
use mathlib.Core.List.Perm
use cerberus.Store.Bucket.{lookup, lookup-put_entry}
use cerberus.Ledger.Types.{
  LedgerKey, utxo, computetx, meta_next_compute_tx, Value, compute_json, counter, ComputeTx,
  ledger_key_order, same_key, counter_or,
}
use cerberus.Ledger.Monad.{◌>>=◌}
use cerberus.Ledger.Live.{View, live}
use cerberus.Ledger.Amounts.{Measure, amount, amount-put_weightless}
use cerberus.Ledger.TxLog.{
  record_compute_tx, or_recorded, insert_newest, newest_first, limited, compute_txs, collect,
  is_compute_key, parse_compute,
}

abbrev pub next_compute : View → ℕ
next_compute x = counter_or 1 (lookup meta_next_compute_tx x.entries)

abbrev pub recorded : ComputeTx → View → ComputeTx
recorded t x = record t { id = next_compute x; state = or_recorded t.state }

abbrev pub RecordAppends : ComputeTx → View → Type 0
RecordAppends t x =
    (y : View) × (record_compute_tx t (live x) ≡ (ok (next_compute x), live y))
    × ((c : Measure) → amount c y.entries ≡ amount c x.entries)
    × (lookup (computetx (next_compute x)) y.entries ≡ some (compute_json (recorded t x)))
    × (next_compute y ≡ next_compute x + 1)
    × ((id : ℕ) → lookup (utxo id) y.entries ≡ lookup (utxo id) x.entries)
    × ((id : ℕ)
        → id < next_compute x
        → lookup (computetx id) y.entries ≡ lookup (computetx id) x.entries)

-- On a live ledger a run is recorded under the next number, which goes up by one; the runs recorded
-- before and every UTXO stay, and so does every sum: recording moves no value.
pub record_compute_tx-appends :
    (t : ComputeTx) (x : View) → next_compute x + 1 < u64_mod → RecordAppends t x
unfolding record_compute_tx same_key
record_compute_tx-appends t x room =
    let id = next_compute x in
    let counted =
      Store.Bucket.put_entry meta_next_compute_tx (counter ((id + 1) % u64_mod)) x.entries in
    let put = λ (k : LedgerKey).
      lookup-put_entry meta_next_compute_tx k (counter ((id + 1) % u64_mod)) x.entries in
    let log =
      λ (k : LedgerKey). lookup-put_entry (computetx id) k (compute_json (recorded t x)) counted in
    (
      record x {
        entries = Store.Bucket.put_entry (computetx id) (compute_json (recorded t x)) counted;
      },
      refl,
      (λ c.
          amount-put_weightless c (computetx id) (compute_json (recorded t x)) counted (λ v. refl)
          ∙ amount-put_weightless c meta_next_compute_tx (counter ((id + 1) % u64_mod)) x.entries
              (λ v. refl)),
      ground (arith, log (computetx id)),
      ground (arith, log meta_next_compute_tx, put meta_next_compute_tx),
      (λ j. ground (arith, log (utxo j), put (utxo j))),
      (λ j h. ground (arith, log (computetx j), put (computetx j))),
    )

-- Newest first.
abbrev pub Falls : ℕ → List ComputeTx → Type 0
Falls n [] = Unit {0}
Falls n (t ∷ ts) = (t.id ≤ n) × Falls t.id ts

abbrev pub IsNewestFirst : List ComputeTx → Type 0
IsNewestFirst [] = Unit {0}
IsNewestFirst (t ∷ ts) = Falls t.id ts

insert_newest-Falls :
    (n : ℕ) (t : ComputeTx) (ts : List ComputeTx)
    → t.id ≤ n
    → Falls n ts
    → Falls n (insert_newest t ts)
unfolding insert_newest
insert_newest-Falls n t [] h f = (h, tt)
insert_newest-Falls n t (u ∷ us) h f = elim (Bool-cases (ltb t.id u.id)) [
  | inl e ↦ rw e (f.0, insert_newest-Falls u.id t us (ground arith) f.1)
  | inr e ↦ rw e (h, (ground arith, f.1))
]

insert_newest-IsNewestFirst :
    (t : ComputeTx) (ts : List ComputeTx) → IsNewestFirst ts → IsNewestFirst (insert_newest t ts)
unfolding insert_newest
insert_newest-IsNewestFirst t [] f = tt
insert_newest-IsNewestFirst t (u ∷ us) f = elim (Bool-cases (ltb t.id u.id)) [
  | inl e ↦ rw e (insert_newest-Falls u.id t us (ground arith) f)
  | inr e ↦ rw e (ground arith, f)
]

newest_first-IsNewestFirst : (ts : List ComputeTx) → IsNewestFirst (newest_first ts)
unfolding newest_first
newest_first-IsNewestFirst [] = tt
newest_first-IsNewestFirst (t ∷ ts) =
    insert_newest-IsNewestFirst t (newest_first ts) (newest_first-IsNewestFirst ts)

take-Falls : (k n : ℕ) (ts : List ComputeTx) → Falls n ts → Falls n (take k ts)
take-Falls zero n ts f = tt
take-Falls (suc k) n [] f = tt
take-Falls (suc k) n (t ∷ ts) f = (f.0, take-Falls k t.id ts f.1)

take-IsNewestFirst : (k : ℕ) (ts : List ComputeTx) → IsNewestFirst ts → IsNewestFirst (take k ts)
take-IsNewestFirst zero ts f = tt
take-IsNewestFirst (suc k) [] f = tt
take-IsNewestFirst (suc k) (t ∷ ts) f = take-Falls k t.id ts f

length-take-le : (k : ℕ) (ts : List ComputeTx) → length (take k ts) ≤ k
length-take-le zero ts = omega arith
length-take-le (suc k) [] = omega arith
length-take-le (suc k) (t ∷ ts) = omega (arith, length-take-le k ts)

limited_lem :
    (limit : ℕ) (ts : List ComputeTx)
    → IsNewestFirst ts
    → IsNewestFirst (limited limit ts) × (0 < limit → length (limited limit ts) ≤ limit)
unfolding limited
limited_lem limit ts f = elim (Bool-cases (ltb 0 limit && ltb limit (length ts))) [
  | inl e ↦ rw e (take-IsNewestFirst limit ts f, λ h. length-take-le limit ts)
  | inr e ↦ rw e (f, λ h. ground arith)
]

insert_newest-perm : (t : ComputeTx) (ts : List ComputeTx) → Perm (insert_newest t ts) (t ∷ ts)
unfolding insert_newest
insert_newest-perm t [] = Perm.refl (t ∷ [])
insert_newest-perm t (u ∷ us) = elim (Bool-cases (ltb t.id u.id)) [
  | inl e ↦ rw e (Perm.trans (Perm.cons u (insert_newest-perm t us)) (Perm.swap t u us))
  | inr e ↦ rw e (Perm.refl (t ∷ u ∷ us))
]

newest_first-perm : (ts : List ComputeTx) → Perm (newest_first ts) ts
unfolding newest_first
newest_first-perm [] = Perm.refl []
newest_first-perm (t ∷ ts) =
    Perm.trans (insert_newest-perm t (newest_first ts)) (Perm.cons t (newest_first-perm ts))

-- The runs that stand under the keys, in the keys' order.
abbrev pub gathered : List LedgerKey → View → List ComputeTx
gathered [] x = []
gathered (k ∷ ks) x =
    if is_compute_key k then parse_compute (lookup k x.entries) ++ gathered ks x else gathered ks x

collect-live : (ks : List LedgerKey) (x : View) → collect ks (live x) ≡ (ok (gathered ks x), live x)
unfolding collect
collect-live [] x = refl
collect-live (k ∷ ks) x = elim (Bool-cases (is_compute_key k)) [
  | inl e ↦ rw (e, ◌>>=◌, collect-live ks x)
  | inr e ↦ rw e (collect-live ks x)
]

abbrev pub all_recorded : View → List ComputeTx
all_recorded x = gathered (map (λ (e : LedgerKey × Value). e.0) x.entries) x

abbrev pub ListsNewest : ℕ → View → Type 0
ListsNewest limit x =
    (out : List ComputeTx) × (compute_txs limit (live x) ≡ (ok out, live x))
    × IsNewestFirst out
    × (0 < limit → length out ≤ limit)
    × (limit ≡ 0 → Perm out (all_recorded x))

-- On a live ledger the runs are listed newest first, no more of them than a positive limit allows,
-- and without a limit all that are recorded, each as often as it is; the ledger does not change.
compute_txs-newest : (limit : ℕ) (x : View) → ListsNewest limit x
unfolding compute_txs
compute_txs-newest limit x =
    let out = newest_first (all_recorded x) in
    let ordered = limited_lem limit out (newest_first-IsNewestFirst (all_recorded x)) in
    (
      limited limit out,
      rw (◌>>=◌, collect-live (map (λ (e : LedgerKey × Value). e.0) x.entries) x),
      ordered.0,
      ordered.1,
      λ none_set. rw none_set (unfold limited in newest_first-perm (all_recorded x)),
    )
