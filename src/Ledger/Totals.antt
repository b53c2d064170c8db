-- ===== src/Ledger/Totals.antt =====
-- daemon/ledger: `Balance` and `TotalSupply`, the loops over the keys against plain sums.
use cerberus.Base.{
  ℕ, ◌+◌, ◌%◌, ◌<◌, ◌≡◌, refl, ap, ◌∙◌, Bool, true, Option, none, some, List, [], ◌∷◌, map, String,
  arith, ok, u64_mod, if◌then◌else◌, str_eq, Bool-cases, false, inl, inr,
}
use cerberus.Store.Bucket.{lookup}
use cerberus.Store.Sums.{total_at, weight_at, total_at-keys, total-eq}
use cerberus.Ledger.Types.{LedgerKey, Value, Utxo, ledger_key_order, is_utxo_key}
use cerberus.Ledger.Utxos.{share, sum_loop, balance, total_supply}
use cerberus.Ledger.Live.{View, live}
use cerberus.Ledger.Amounts.{supply, owned, weigh, amount}
use cerberus.Ledger.Sound.{Sound}

-- What one entry adds to the loop's sum.
abbrev tally : (Utxo → Bool) → LedgerKey → Value → ℕ
tally counts k v = if is_utxo_key k then share counts (some v) else 0

tally_utxo :
    (counts : Utxo → Bool) (k : LedgerKey) (o : Option Value)
    → is_utxo_key k ≡ true
    → weight_at (tally counts) k o ≡ share counts o
tally_utxo counts k none h = refl
tally_utxo counts k (some v) h = rw h

tally_other :
    (counts : Utxo → Bool) (k : LedgerKey) (o : Option Value)
    → is_utxo_key k ≡ false
    → weight_at (tally counts) k o ≡ 0
tally_other counts k none h = refl
tally_other counts k (some v) h = rw h

sum_loop-live :
    (counts : Utxo → Bool) (ks : List LedgerKey) (sum : ℕ) (x : View)
    → sum < u64_mod
    → sum_loop counts ks sum (live x)
      ≡ (ok ((sum + total_at (tally counts) ks x.entries) % u64_mod), live x)
unfolding sum_loop
sum_loop-live counts [] sum x h = ap (λ n. (ok n, live x)) (omega arith)
sum_loop-live counts (k ∷ ks) sum x h =
    let a = share counts (lookup k x.entries) in
    elim (Bool-cases (is_utxo_key k)) [
      | inl e ↦ rw e (
          sum_loop-live counts ks ((sum + a) % u64_mod) x (omega arith)
          ∙ ap (λ n. (ok n, live x)) (omega (arith, tally_utxo counts k (lookup k x.entries) e)))
      | inr e ↦ rw e (
          sum_loop-live counts ks sum x h
          ∙ ap (λ n. (ok n, live x)) (omega (arith, tally_other counts k (lookup k x.entries) e)))
    ]

tally-supply : (k : LedgerKey) (v : Value) → tally (λ _. true) k v ≡ weigh supply k v
tally-supply k v = ground arith

tally-owned :
    (name : String) (k : LedgerKey) (v : Value)
    → tally (λ u. str_eq u.owner name) k v ≡ weigh (owned name) k v
tally-owned name k v = ground arith

-- On a live ledger `TotalSupply` returns the sum of all UTXOs and `Balance` that of an owner's,
-- both modulo 2^64, and neither changes the ledger.
balance_sums :
    (name : String) (x : View)
    → Sound x
    → (total_supply (live x) ≡ (ok (amount supply x.entries % u64_mod), live x))
      × (balance name (live x) ≡ (ok (amount (owned name) x.entries % u64_mod), live x))
unfolding total_supply balance
balance_sums name x s = (
  rw
      (
        sum_loop-live (λ _. true) (map (λ (e : LedgerKey × Value). e.0) x.entries) 0 x
            (omega arith),
        total_at-keys (tally (λ _. true)) x.entries s.distinct,
        total-eq (tally (λ _. true)) (weigh supply) x.entries tally-supply,
      )
      (ap (λ n. (ok n, live x)) (omega arith)),
  rw
      (
        sum_loop-live (λ u. str_eq u.owner name) (map (λ (e : LedgerKey × Value). e.0) x.entries) 0
            x (omega arith),
        total_at-keys (tally (λ u. str_eq u.owner name)) x.entries s.distinct,
        total-eq (tally (λ u. str_eq u.owner name)) (weigh (owned name)) x.entries
            (tally-owned name),
      )
      (ap (λ n. (ok n, live x)) (omega arith)),
)
