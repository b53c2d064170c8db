-- ===== src/Store.antt =====
-- daemon/store/store.go: the bucketed key/value store, seen as the one bucket that a client uses.
-- bbolt itself is outside the repository. What the model takes of it: a bucket keeps its keys in
-- order, a transaction that fails changes nothing, and `faults` says which transactions fail.
pub mod Bucket
pub mod Sums
use cerberus.Base.{
  Bool, true, false, List, [], ◌∷◌, Option, none, some, map, Result, ok, err, if◌then◌else◌,
}
use Bucket.{KeyOrder, Entries, lookup, put_entry, remove}

pub data StoreError : Type 0 where
  closed fault : StoreError

-- `opened` is `s.db != nil`. The head of `faults` says whether bbolt fails the next transaction;
-- past the end of the list no transaction fails.
pub record Store (K V : Type 0) : Type 0 where
  pub opened : Bool
  pub entries : Entries K V
  pub faults : List Bool

abbrev pub next_fails : List Bool → Bool
next_fails [] = false
next_fails (b ∷ bs) = b

abbrev pub later_faults : List Bool → List Bool
later_faults [] = []
later_faults (b ∷ bs) = bs

module _ {K V : Type 0} where
  -- One transaction: refused on a closed store, failed by bbolt, or run.
  abbrev pub transaction :
      {A : Type 0} → (Entries K V → A × Entries K V) → Store K V → Result StoreError A × Store K V
  transaction body s =
      if s.opened
      then if next_fails s.faults
        then (err fault, record s { faults = later_faults s.faults })
        else (
          ok (body s.entries).0,
          record s { entries = (body s.entries).1; faults = later_faults s.faults },
        )
      else (err closed, s)

  unfoldable pub put :
      ⦃o : KeyOrder K⦄ → K → V → Store K V → Result StoreError (Unit {0}) × Store K V
  put k v = transaction (λ m. (tt, put_entry k v m))

  unfoldable pub get : ⦃o : KeyOrder K⦄ → K → Store K V → Result StoreError (Option V) × Store K V
  get k = transaction (λ m. (lookup k m, m))

  unfoldable pub delete :
      ⦃o : KeyOrder K⦄ → K → Store K V → Result StoreError (Unit {0}) × Store K V
  delete k = transaction (λ m. (tt, remove k m))

  unfoldable pub keys : Store K V → Result StoreError (List K) × Store K V
  keys = transaction (λ m. (map (λ e. e.0) m, m))
