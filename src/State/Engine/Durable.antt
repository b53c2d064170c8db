-- ===== src/State/Engine/Durable.antt =====
-- daemon/state/state.go: the store after a merge that reports no error.
use cerberus.Base.{
  true, false, ◌≡◌, refl, sym, ap, ◌∙◌, subst, List, [], ◌∷◌, ◌++◌, Option, none, some, Result, ok,
  err, if◌then◌else◌, inl, inr, Bool-cases, arith,
}
use cerberus.Base.Bytes.{bytes_eq}
use cerberus.Store.{Store, StoreError, transaction, next_fails}
use cerberus.Store
use cerberus.Store.Bucket.{
  Entries, lookup, put_entry, remove, lookup-put_entry, lookup-remove, Distinct, Distinct-put_entry,
  Distinct-remove,
}
use cerberus.State.Engine.{
  CrdtOp, Engine, StateError, keep, store_both, conflicts_after, failure, apply_to, apply,
  merge_from, merge_next, merge,
}
use cerberus.State.Engine.Disk.{
  Bytes, Document, Conflict, StateKey, doc_entry, conflict_entry, StateValue, marshalled_document,
  marshalled_conflicts, state_key_order, persist, persist_conflicts, no_conflicts,
}
use cerberus.State.Engine.Restart.{stored_conflicts, Synced, Reopened, Synced-Reopened}

abbrev S : Type 0
S = Store StateKey StateValue

transaction_done :
    (body : Entries StateKey StateValue → Unit {0} × Entries StateKey StateValue) (s : S)
    → failure (transaction body s).0 ≡ none
    → (transaction body s).1.entries ≡ (body s.entries).1
transaction_done body s h = elim (Bool-cases s.opened) [
  | inr q ↦ elim (shut q h) [ ]
  | inl q ↦ elim (Bool-cases (next_fails s.faults)) [
    | inl b ↦ elim (failed q b h) [ ]
    | inr b ↦ rw (q, b) refl
  ]
]
  where
    shut : s.opened ≡ false → failure (transaction body s).0 ≡ none → ⊥
    shut q h = ground arith

    failed :
        s.opened ≡ true → next_fails s.faults ≡ true → failure (transaction body s).0 ≡ none → ⊥
    failed q b h = ground arith

-- The entries after the document and the list of conflicts were written.
abbrev written :
    Bytes → Document → List Conflict → Entries StateKey StateValue → Entries StateKey StateValue
written dk d cs m =
    let m' : Entries StateKey StateValue = put_entry (doc_entry dk) (marshalled_document d) m in
    if no_conflicts cs
    then remove (conflict_entry dk) m'
    else put_entry (conflict_entry dk) (marshalled_conflicts cs) m'

persist_conflicts_done :
    (dk : Bytes) (cs : List Conflict) (s : S)
    → failure (persist_conflicts dk cs s).0 ≡ none
    → (persist_conflicts dk cs s).1.entries ≡ (
        if no_conflicts cs
        then remove (conflict_entry dk) s.entries
        else put_entry (conflict_entry dk) (marshalled_conflicts cs) s.entries)
unfolding persist_conflicts Store.put Store.delete
persist_conflicts_done dk cs s h = elim (Bool-cases (no_conflicts cs)) [
  | inl q ↦
      let h' =
        subst
          (λ b.
            failure
              ((if b
                  then Store.delete (conflict_entry dk)
                  else Store.put (conflict_entry dk) (marshalled_conflicts cs))
                s).0
            ≡ none)
          q h in
      rw q (transaction_done (λ m. (tt, remove (conflict_entry dk) m)) s h')
  | inr q ↦
      let h' =
        subst
          (λ b.
            failure
              ((if b
                  then Store.delete (conflict_entry dk)
                  else Store.put (conflict_entry dk) (marshalled_conflicts cs))
                s).0
            ≡ none)
          q h in
      rw q (
        transaction_done (λ m. (tt, put_entry (conflict_entry dk) (marshalled_conflicts cs) m)) s
          h')
]

both_done :
    (dk : Bytes) (cs : List Conflict) (r : Result StoreError (Unit {0}) × S)
    → (conflicts_after dk cs r).0 ≡ none
    → (failure r.0 ≡ none)
      × (failure (persist_conflicts dk cs r.1).0 ≡ none)
      × ((conflicts_after dk cs r).1 ≡ (persist_conflicts dk cs r.1).1)
both_done dk cs (ok tt, s) h = (refl, h, refl)
both_done dk cs (err e, s) h = cc

store_both_done :
    (dk : Bytes) (d : Document) (cs : List Conflict) (s : S)
    → (store_both dk d cs s).0 ≡ none
    → (store_both dk d cs s).1.entries ≡ written dk d cs s.entries
unfolding store_both persist Store.put
store_both_done dk d cs s h =
    let (first, second, same) = both_done dk cs (persist dk d s) h in
    ap (λ x. x.entries) same
    ∙ persist_conflicts_done dk cs (persist dk d s).1 second
    ∙ ap
        (λ m.
          if no_conflicts cs
          then remove (conflict_entry dk) m
          else put_entry (conflict_entry dk) (marshalled_conflicts cs) m)
        (transaction_done (λ m. (tt, put_entry (doc_entry dk) (marshalled_document d) m)) s first)

module _ (dk : Bytes) (d : Document) (m : Entries StateKey StateValue) (distinct : Distinct m) where
  with_document : Entries StateKey StateValue
  with_document = put_entry (doc_entry dk) (marshalled_document d) m

  with_document-Distinct : Distinct with_document
  unfolding with_document
  with_document-Distinct = Distinct-put_entry (doc_entry dk) (marshalled_document d) m distinct

  written_doc :
      (cs : List Conflict) (k : Bytes)
      → lookup (doc_entry k) (written dk d cs m)
        ≡ (if bytes_eq dk k then some (marshalled_document d) else lookup (doc_entry k) m)
  unfolding with_document
  written_doc [] k =
      lookup-remove (conflict_entry dk) (doc_entry k) with_document with_document-Distinct
      ∙ lookup-put_entry (doc_entry dk) (doc_entry k) (marshalled_document d) m
  written_doc (c ∷ cs) k =
      lookup-put_entry (conflict_entry dk) (doc_entry k) (marshalled_conflicts (c ∷ cs))
        with_document
      ∙ lookup-put_entry (doc_entry dk) (doc_entry k) (marshalled_document d) m

  written_conflicts :
      (cs : List Conflict) (k : Bytes)
      → lookup (conflict_entry k) (written dk d cs m)
        ≡ (if bytes_eq dk k then stored_conflicts cs else lookup (conflict_entry k) m)
  unfolding with_document
  written_conflicts [] k =
      rw (lookup-remove (conflict_entry dk) (conflict_entry k) with_document with_document-Distinct)
        (ap (λ o. if bytes_eq dk k then none else o)
          (lookup-put_entry (doc_entry dk) (conflict_entry k) (marshalled_document d) m))
  written_conflicts (c ∷ cs) k =
      rw
        (lookup-put_entry (conflict_entry dk) (conflict_entry k) (marshalled_conflicts (c ∷ cs))
          with_document)
        (ap (λ o. if bytes_eq dk k then some (marshalled_conflicts (c ∷ cs)) else o)
          (lookup-put_entry (doc_entry dk) (conflict_entry k) (marshalled_document d) m))

  written-Distinct : (cs : List Conflict) → Distinct (written dk d cs m)
  unfolding with_document
  written-Distinct [] = Distinct-remove (conflict_entry dk) with_document with_document-Distinct
  written-Distinct (c ∷ cs) =
      Distinct-put_entry (conflict_entry dk) (marshalled_conflicts (c ∷ cs)) with_document
        with_document-Distinct

keep-Synced :
    (dk : Bytes) (d : Document) (cs : List Conflict) (e : Engine)
    → (keep dk d cs e).0 ≡ none
    → Synced e
    → Synced (keep dk d cs e).1
keep-Synced dk d cs e h s = record {
  documents = λ k.
      ap (λ m. lookup (doc_entry k) m) done
      ∙ written_doc dk d e.disk.entries s.distinct cs k
      ∙ elim (Bool-cases (bytes_eq dk k)) [ inl q ↦ rw q refl | inr q ↦ rw q (s.documents k) ];
  open_lists = λ k.
      ap (λ m. lookup (conflict_entry k) m) done
      ∙ written_conflicts dk d e.disk.entries s.distinct cs k
      ∙ elim (Bool-cases (bytes_eq dk k)) [ inl q ↦ rw q refl | inr q ↦ rw q (s.open_lists k) ];
  distinct = subst Distinct (sym done) (written-Distinct dk d e.disk.entries s.distinct cs);
}
  where
    done : (store_both dk d cs e.disk).1.entries ≡ written dk d cs e.disk.entries
    done = store_both_done dk d cs e.disk h

apply-Synced :
    (op : CrdtOp) (e : Engine) → (apply op e).0.1 ≡ none → Synced e → Synced (apply op e).1
unfolding apply
apply-Synced op e h s = body op.patch h
  where
    body :
        (patch : Option (List (Bytes × Bytes)))
        → (apply_to op patch e).0.1 ≡ none
        → Synced (apply_to op patch e).1
    body none h' = s
    body (some patch) h' = keep-Synced op.doc_id _ _ e h' s

merge_from-Synced :
    (ops : List CrdtOp) (all : List Conflict) (e : Engine)
    → (merge_from ops all e).0.1 ≡ none
    → Synced e
    → Synced (merge_from ops all e).1
unfolding merge_from
merge_from-Synced [] all e h s = s
merge_from-Synced (op ∷ ops) all e h s =
    next (apply op e) (λ k. apply-Synced op e k s)
      (λ all' e' h' s'. merge_from-Synced ops all' e' h' s') h
  where
    next :
        (r : (List Conflict × Option StateError) × Engine)
        → (r.0.1 ≡ none → Synced r.1)
        → ((all' : List Conflict) (e' : Engine)
            → (merge_from ops all' e').0.1 ≡ none
            → Synced e'
            → Synced (merge_from ops all' e').1)
        → (merge_next all r (λ all' e'. merge_from ops all' e')).0.1 ≡ none
        → Synced (merge_next all r (λ all' e'. merge_from ops all' e')).1
    next ((c, none), e') i rest h' = rest (all ++ c) e' h' (i refl)
    next ((c, some error), e') i rest h' = cc

-- Where the store holds what the engine has and a merge reports no error, an engine opened on the
-- store after the merge has the documents and the open conflicts that the merge left in memory.
pub merge-Reopened :
    (ops : List CrdtOp) (e : Engine)
    → Synced e
    → (merge ops e).0.1 ≡ none
    → Reopened (merge ops e).1
merge-Reopened ops e s h = Synced-Reopened (merge ops e).1 (merge_from-Synced ops [] e h s)
