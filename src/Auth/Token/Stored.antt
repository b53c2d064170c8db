-- ===== src/Auth/Token/Stored.antt =====
-- cmd/cerberusd/main.go: `storeRevocations`, the daemon's backend of revocations, over the bucket
-- "revocations" of its store. A lookup does not hand its store on, so the outcome at the head of the
-- faults stands for every lookup up to the next `Add`.
use cerberus.Base.{
  ◌≡◌, refl, Bool, true, false, [], ◌∷◌, Option, none, some, Result, ok, err, ◌||◌, if◌then◌else◌,
}
use cerberus.Base.Bytes.{bytes_eq, bytes_eq_iff, bytes_ltb}
use cerberus.Store
use cerberus.Store.{Store, StoreError}
use cerberus.Store.Bucket.{KeyOrder, lookup, lookup-put_entry}
use cerberus.Auth.Token.{Bytes, Backend}
use cerberus.Auth.Token.Revoked.{BackendLaws}

instance abbrev bytes_key_order : KeyOrder Bytes
bytes_key_order = record { keq = bytes_eq; keq_iff = bytes_eq_iff; klt = bytes_ltb }

-- `_, ok, _ := Get(...)`: an error counts as no entry.
abbrev has_entry : Result StoreError (Option Bytes) → Bool
has_entry (ok (some v)) = true
has_entry (ok none) = false
has_entry (err e) = false

unfoldable pub stored_revoked : Store Bytes Bytes → Bytes → Bool
stored_revoked s id = has_entry (Store.get id s).0

abbrev is_failure : Result StoreError (Unit {0}) → Bool
is_failure (ok u) = false
is_failure (err e) = true

unfoldable pub stored_add : Bytes → Store Bytes Bytes → Bool × Store Bytes Bytes
stored_add id s = let r = Store.put id (1 ∷ []) s in (is_failure r.0, r.1)

abbrev pub store_revocations : Backend
store_revocations = record {
  State = Store Bytes Bytes;
  is_revoked = stored_revoked;
  add = stored_add;
}

-- The store is open, and no transaction is to fail.
abbrev pub IsReliable : Store Bytes Bytes → Type 0
IsReliable s = (s.opened ≡ true) × (s.faults ≡ [])

stored_add-IsReliable :
    (id : Bytes) (s : Store Bytes Bytes) → IsReliable s → IsReliable (stored_add id s).1
unfolding stored_add Store.put
stored_add-IsReliable id s (o, f) = rw (o, f) (refl, refl)

has_entry-put :
    (b : Bool) (o : Option Bytes)
    → has_entry (ok (if b then some (1 ∷ []) else o)) ≡ (b || has_entry (ok o))
has_entry-put true o = refl
has_entry-put false o = refl

or_true : (b : Bool) → (b || true) ≡ true
or_true true = refl
or_true false = refl

stored_revoked-stored_add :
    (id x : Bytes) (s : Store Bytes Bytes)
    → IsReliable s
    → stored_revoked (stored_add id s).1 x ≡ (bytes_eq id x || stored_revoked s x)
unfolding stored_revoked stored_add Store.put Store.get
stored_revoked-stored_add id x s (o, f) =
    rw (o, f, lookup-put_entry id x (1 ∷ []) s.entries)
      (has_entry-put (bytes_eq id x) (lookup x s.entries))

pub store_revocations-BackendLaws : BackendLaws store_revocations IsReliable
store_revocations-BackendLaws = record {
  kept = stored_add-IsReliable;
  added = λ id s w _. rw (stored_revoked-stored_add id id s w, (bytes_eq_iff id id).1 refl) refl;
  sticky = λ id x s w h. rw (stored_revoked-stored_add id x s w, h) (or_true (bytes_eq id x));
}
