-- ===== src/State/Engine/Disk.antt =====
-- daemon/state/state.go: what the engine keeps in the two buckets of its store.
use cerberus.Base.{ℕ, Bool, true, false, ◌≡◌, ◌↔◌, List, [], ◌∷◌, if◌then◌else◌, Result, ap}
use cerberus.Base.Bytes.{bytes_eq, bytes_eq_iff, bytes_ltb}
use cerberus.Store.{Store, StoreError}
use cerberus.Store
use cerberus.Store.Bucket.{KeyOrder}
use cerberus.State.Clock.{Clock}
use cerberus.State.Register.{Dot}

abbrev pub Bytes : Type 0
Bytes = List ℕ

pub record Document : Type 0 where
  pub clock : Clock
  pub registers : Bytes → List Dot

-- A candidate is its write; its actor stays in hex.
pub record Conflict : Type 0 where
  pub doc_id : Bytes
  pub subject : Bytes
  pub candidates : List Dot

-- A key of the bucket `crdt`, and one of `crdt.conflicts`.
pub data StateKey : Type 0 where
  doc_entry conflict_entry : Bytes → StateKey

pub data StateValue : Type 0 where
  marshalled_document : Document → StateValue
  marshalled_conflicts : List Conflict → StateValue

abbrev same_key : StateKey → StateKey → Bool
same_key (doc_entry a) (doc_entry b) = bytes_eq a b
same_key (conflict_entry a) (conflict_entry b) = bytes_eq a b
same_key _ _ = false

abbrev key_text : StateKey → Bytes
key_text (doc_entry a) = a
key_text (conflict_entry a) = a

pub same_key_iff : (a b : StateKey) → (same_key a b ≡ true) ↔ (a ≡ b)
same_key_iff (doc_entry a) (doc_entry b) =
    (λ h. ap doc_entry ((bytes_eq_iff a b).0 h), λ e. (bytes_eq_iff a b).1 (ap key_text e))
same_key_iff (conflict_entry a) (conflict_entry b) =
    (λ h. ap conflict_entry ((bytes_eq_iff a b).0 h), λ e. (bytes_eq_iff a b).1 (ap key_text e))
same_key_iff (doc_entry a) (conflict_entry b) = (λ h. cc, λ e. cc)
same_key_iff (conflict_entry a) (doc_entry b) = (λ h. cc, λ e. cc)

instance abbrev pub state_key_order : KeyOrder StateKey
state_key_order = record {
  keq = same_key;
  keq_iff = same_key_iff;
  klt = λ a b. bytes_ltb (key_text a) (key_text b);
}

unfoldable pub persist :
    Bytes
    → Document
    → Store StateKey StateValue
    → Result StoreError (Unit {0}) × Store StateKey StateValue
persist dk d = Store.put (doc_entry dk) (marshalled_document d)

-- len(cs) == 0
abbrev pub no_conflicts : List Conflict → Bool
no_conflicts [] = true
no_conflicts (c ∷ cs) = false

unfoldable pub persist_conflicts :
    Bytes
    → List Conflict
    → Store StateKey StateValue
    → Result StoreError (Unit {0}) × Store StateKey StateValue
persist_conflicts dk cs =
    if no_conflicts cs
    then Store.delete (conflict_entry dk)
    else Store.put (conflict_entry dk) (marshalled_conflicts cs)
