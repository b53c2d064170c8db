-- ===== src/State/Engine/Load.antt =====
-- daemon/state/state.go: `Open`, which loads the documents and the open conflicts from the store.
use cerberus.Base.{List, [], ◌∷◌, Option, none, some, Result, ok, err}
use cerberus.Store.{Store, StoreError}
use cerberus.Store
use cerberus.State.Engine.{Engine, update}
use cerberus.State.Engine.Disk.{
  Bytes, Document, Conflict, StateKey, doc_entry, conflict_entry, StateValue, marshalled_document,
  marshalled_conflicts, state_key_order,
}

-- `if err != nil { return nil, err }` after a call of the store.
abbrev pub then_store :
    {A B : Type 0}
    → Result StoreError A × Store StateKey StateValue
    → (A → Store StateKey StateValue → Result StoreError B × Store StateKey StateValue)
    → Result StoreError B × Store StateKey StateValue
then_store (ok a, s) f = f a s
then_store (err e, s) f = (err e, s)

-- The keys of one bucket.
abbrev pub doc_key : StateKey → Option Bytes
doc_key (doc_entry k) = some k
doc_key (conflict_entry k) = none

abbrev pub conflict_key : StateKey → Option Bytes
conflict_key (doc_entry k) = none
conflict_key (conflict_entry k) = some k

abbrev pub with_key : Option Bytes → List Bytes → List Bytes
with_key none ks = ks
with_key (some k) ks = k ∷ ks

unfoldable pub bucket_keys : (StateKey → Option Bytes) → List StateKey → List Bytes
bucket_keys key [] = []
bucket_keys key (k ∷ ks) = with_key (key k) (bucket_keys key ks)

-- json.Unmarshal into a document, or into a list of conflicts.
abbrev pub read_document : StateValue → Option Document
read_document (marshalled_document d) = some d
read_document (marshalled_conflicts cs) = none

abbrev pub read_conflicts : StateValue → Option (List Conflict)
read_conflicts (marshalled_document d) = none
read_conflicts (marshalled_conflicts cs) = some cs

module _ {A : Type 0} (entry : Bytes → StateKey) (read : StateValue → Option A) where
  abbrev pub read_from : Option StateValue → Option A
  read_from none = none
  read_from (some v) = read v

  -- A value that is missing or does not unmarshal is passed over.
  abbrev pub loaded : Bytes → Option A → (Bytes → Option A) → Bytes → Option A
  loaded k none m = m
  loaded k (some a) m = update m k (some a)

  unfoldable pub load_all :
      List Bytes
      → (Bytes → Option A)
      → Store StateKey StateValue
      → Result StoreError (Bytes → Option A) × Store StateKey StateValue
  load_all [] m s = (ok m, s)
  load_all (k ∷ ks) m s =
      then_store (Store.get (entry k) s) (λ v s'. load_all ks (loaded k (read_from v) m) s')

abbrev pub listed : Option (List Conflict) → List Conflict
listed none = []
listed (some cs) = cs

unfoldable pub open_engine :
    Store StateKey StateValue → Result StoreError Engine × Store StateKey StateValue
open_engine s = then_store (Store.keys s) (λ keys s1.
    then_store (load_all doc_entry read_document (bucket_keys doc_key keys) (λ k. none) s1)
      (λ docs s2. then_store (Store.keys s2) (λ ckeys s3.
        then_store
          (load_all conflict_entry read_conflicts (bucket_keys conflict_key ckeys) (λ k. none) s3)
          (λ found s4.
            (ok (record { disk = s4; docs = docs; conflicts = λ k. listed (found k) }), s4)))))
