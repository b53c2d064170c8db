-- ===== src/State/Engine/Restart.antt =====
-- daemon/state/state.go: what `Open` finds in the store that an engine has written.
use cerberus.Base.{
  true, false, ◌≡◌, refl, sym, ap, ◌∙◌, subst, List, [], ◌∷◌, Option, none, some, ok, inl, inr, ◌⊎◌,
  Bool-cases, Option-cases, map,
}
use mathlib.Core.List.{Memᴰ}
use cerberus.Base.Bytes.{bytes_eq, bytes_eq_iff}
use cerberus.Store.{Store, StoreError}
use cerberus.Store
use cerberus.Store.Bucket.{Entries, lookup, Distinct}
use cerberus.State.Engine.{Engine}
use cerberus.State.Engine.Disk.{
  Bytes, Document, Conflict, StateKey, doc_entry, conflict_entry, StateValue, marshalled_document,
  marshalled_conflicts, state_key_order,
}
use cerberus.State.Engine.Load.{
  doc_key, conflict_key, with_key, bucket_keys, read_document, read_conflicts, read_from, loaded,
  load_all, listed, open_engine,
}

-- A store after a restart that fails no more.
abbrev pub fresh : Entries StateKey StateValue → Store StateKey StateValue
fresh entries = record { opened = true; entries = entries; faults = [] }

with_key-Memᴰ :
    (o : Option Bytes) (j : Bytes) (ks : List Bytes) → Memᴰ j ks → Memᴰ j (with_key o ks)
with_key-Memᴰ none j ks h = h
with_key-Memᴰ (some k) j ks h = Memᴰ.tail h

module _ {A : Type 0} (entry : Bytes → StateKey) (read : StateValue → Option A)
    (m : Entries StateKey StateValue) where
  stored : Bytes → Option A
  stored k = read_from entry read (lookup (entry k) m)

  -- Each key has its stored value, or none yet.
  Partly : (Bytes → Option A) → Type 0
  Partly f = (k : Bytes) → (f k ≡ none) ⊎ (f k ≡ stored k)

  loaded_here :
      (k : Bytes) (f : Bytes → Option A) → Partly f → loaded entry read k (stored k) f k ≡ stored k
  unfolding Partly
  loaded_here k f p = elim (Option-cases (stored k)) [
    | inl e ↦ rw e (elim (p k) [ inl q ↦ q | inr q ↦ q ∙ e ])
    | inr (a, e) ↦ rw (e, (bytes_eq_iff k k).1 refl) refl
  ]

  loaded_there :
      (k j : Bytes) (f : Bytes → Option A)
      → bytes_eq k j ≡ false
      → loaded entry read k (stored k) f j ≡ f j
  loaded_there k j f q = elim (Option-cases (stored k)) [
    | inl e ↦ rw e refl
    | inr (a, e) ↦ rw (e, q) refl
  ]

  loaded_keeps :
      (k j : Bytes) (f : Bytes → Option A)
      → Partly f
      → f j ≡ stored j
      → loaded entry read k (stored k) f j ≡ stored j
  loaded_keeps k j f p h = elim (Bool-cases (bytes_eq k j)) [
    | inl q ↦
        subst (λ x. loaded entry read k (stored k) f x ≡ stored x) ((bytes_eq_iff k j).0 q)
          (loaded_here k f p)
    | inr q ↦ loaded_there k j f q ∙ h
  ]

  loaded-Partly :
      (k : Bytes) (f : Bytes → Option A) → Partly f → Partly (loaded entry read k (stored k) f)
  unfolding Partly
  loaded-Partly k f p j = elim (p j) [
    | inr h ↦ inr (loaded_keeps k j f p h)
    | inl h ↦ elim (Bool-cases (bytes_eq k j)) [
      | inl q ↦ inr (
          subst (λ x. loaded entry read k (stored k) f x ≡ stored x) ((bytes_eq_iff k j).0 q)
            (loaded_here k f p))
      | inr q ↦ inl (loaded_there k j f q ∙ h)
    ]
  ]

  collected : List Bytes → (Bytes → Option A) → Bytes → Option A
  collected [] f = f
  collected (k ∷ ks) f = collected ks (loaded entry read k (stored k) f)

  load_all-fresh :
      (ks : List Bytes) (f : Bytes → Option A)
      → load_all entry read ks f (fresh m) ≡ (ok (collected ks f), fresh m)
  unfolding load_all collected Store.get stored
  load_all-fresh [] f = refl
  load_all-fresh (k ∷ ks) f = load_all-fresh ks (loaded entry read k (stored k) f)

  collected_keeps :
      (ks : List Bytes) (j : Bytes) (f : Bytes → Option A)
      → Partly f
      → f j ≡ stored j
      → collected ks f j ≡ stored j
  unfolding collected
  collected_keeps [] j f p h = h
  collected_keeps (k ∷ ks) j f p h =
      collected_keeps ks j (loaded entry read k (stored k) f) (loaded-Partly k f p)
        (loaded_keeps k j f p h)

  collected_found :
      (ks : List Bytes) (j : Bytes) (f : Bytes → Option A)
      → Partly f
      → Memᴰ j ks
      → collected ks f j ≡ stored j
  unfolding collected
  collected_found [] j f p h = elim h [ ]
  collected_found (k ∷ ks) j f p (Memᴰ.head e) =
      collected_keeps ks j (loaded entry read k (stored k) f) (loaded-Partly k f p)
        (subst (λ x. loaded entry read k (stored k) f x ≡ stored x) (sym e) (loaded_here k f p))
  collected_found (k ∷ ks) j f p (Memᴰ.tail h) =
      collected_found ks j (loaded entry read k (stored k) f) (loaded-Partly k f p) h

  abbrev nothing : Bytes → Option A
  nothing k = none

  nothing-Partly : Partly nothing
  unfolding Partly
  nothing-Partly k = inl refl

  collected_all :
      (ks : List Bytes) (j : Bytes)
      → (lookup (entry j) m ≡ none) ⊎ Memᴰ j ks
      → collected ks nothing j ≡ stored j
  unfolding stored
  collected_all ks j (inl h) =
      collected_keeps ks j nothing nothing-Partly (ap (read_from entry read) (sym h))
  collected_all ks j (inr h) = collected_found ks j nothing nothing-Partly h

  bucket_keys-lookup :
      (key : StateKey → Option Bytes) (j : Bytes) (es : Entries StateKey StateValue)
      → key (entry j) ≡ some j
      → (lookup (entry j) es ≡ none) ⊎ Memᴰ j (bucket_keys key (map (λ e. e.0) es))
  unfolding bucket_keys
  bucket_keys-lookup key j [] h = inl refl
  bucket_keys-lookup key j ((k, v) ∷ es) h = elim (Bool-cases (state_key_order.keq k (entry j))) [
    | inl q ↦
        let same : key k ≡ some j = ap key ((state_key_order.keq_iff k (entry j)).0 q) ∙ h in
        inr (
          subst (λ o. Memᴰ j (with_key o (bucket_keys key (map (λ e. e.0) es)))) (sym same)
            (Memᴰ.head refl))
    | inr q ↦ rw q (elim (bucket_keys-lookup key j es h) [
      | inl e ↦ inl e
      | inr e ↦ inr (with_key-Memᴰ (key k) j (bucket_keys key (map (λ x. x.0) es)) e)
    ])
  ]

  -- The loop of `Open` over a bucket finds what is stored under each key.
  pub load_bucket :
      (key : StateKey → Option Bytes)
      → ((j : Bytes) → key (entry j) ≡ some j)
      → (f : Bytes → Option A) × (load_all entry read
            (bucket_keys key (map (λ e. e.0) m))
            (λ k. none)
            (fresh m)
          ≡ (ok f, fresh m))
        × ((j : Bytes) → f j ≡ read_from entry read (lookup (entry j) m))
  unfolding stored
  load_bucket key h =
      let ks = bucket_keys key (map (λ e. e.0) m) in
      (
        collected ks nothing,
        load_all-fresh ks nothing,
        λ j. collected_all ks j (bucket_keys-lookup key j m (h j)),
      )

abbrev pub stored_document : Option Document → Option StateValue
stored_document none = none
stored_document (some d) = some (marshalled_document d)

abbrev pub stored_conflicts : List Conflict → Option StateValue
stored_conflicts [] = none
stored_conflicts (c ∷ cs) = some (marshalled_conflicts (c ∷ cs))

-- The store holds what the engine has in memory.
pub record Synced (e : Engine) : Type 0 where
  pub documents : (k : Bytes) → lookup (doc_entry k) e.disk.entries ≡ stored_document (e.docs k)
  pub open_lists :
      (k : Bytes) → lookup (conflict_entry k) e.disk.entries ≡ stored_conflicts (e.conflicts k)
  pub distinct : Distinct e.disk.entries

-- `Open` on the store succeeds with an engine of the same documents and open conflicts.
pub record Reopened (e : Engine) : Type 0 where
  pub engine : Engine
  pub opens : (open_engine (fresh e.disk.entries)).0 ≡ ok engine
  pub same_documents : (k : Bytes) → engine.docs k ≡ e.docs k
  pub same_conflicts : (k : Bytes) → engine.conflicts k ≡ e.conflicts k

read_stored_document :
    (o : Option Document) → read_from doc_entry read_document (stored_document o) ≡ o
read_stored_document none = refl
read_stored_document (some d) = refl

read_stored_conflicts :
    (cs : List Conflict)
    → listed (read_from conflict_entry read_conflicts (stored_conflicts cs)) ≡ cs
read_stored_conflicts [] = refl
read_stored_conflicts (c ∷ cs) = refl

pub Synced-Reopened : (e : Engine) → Synced e → Reopened e
unfolding open_engine Store.keys
Synced-Reopened e s =
    let (docs, docs_loaded, docs_at) =
      load_bucket doc_entry read_document e.disk.entries doc_key (λ j. refl) in
    let (found, found_loaded, found_at) =
      load_bucket conflict_entry read_conflicts e.disk.entries conflict_key (λ j. refl) in
    record {
      engine = record {
        disk = fresh e.disk.entries;
        docs = docs;
        conflicts = λ k. listed (found k);
      };
      opens = rw (docs_loaded, found_loaded) refl;
      same_documents = λ k.
          docs_at k
          ∙ ap (read_from doc_entry read_document) (s.documents k)
          ∙ read_stored_document (e.docs k);
      same_conflicts = λ k.
          ap listed (found_at k ∙ ap (read_from conflict_entry read_conflicts) (s.open_lists k))
          ∙ read_stored_conflicts (e.conflicts k);
    }
