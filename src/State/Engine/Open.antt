-- ===== src/State/Engine/Open.antt =====
-- daemon/state/state.go: the open conflicts against the registers.
use cerberus.Base.{
  true, ◌≡◌, refl, sym, ap, subst, List, [], ◌∷◌, ◌++◌, Option, none, some, if◌then◌else◌, inl, inr,
  Bool-cases, arith, All,
}
use cerberus.Base.Bytes.{bytes_eq, bytes_eq_iff}
use cerberus.State.Clock.{Clock}
use cerberus.State.Register.{Dot}
use cerberus.State.Resolve.{conflicted}
use cerberus.State.Engine.{
  CrdtOp, Engine, update, known, conflict_for, upsert_conflict, clear_conflict, noted, Progress,
  apply_write, apply_patch, keep, progress_of, apply_to, apply, merge_from, merge, resolve_subject,
  checkpoint, StateError, merge_next, resolve_in,
}
use cerberus.State.Engine.Disk.{Bytes, Document, Conflict}

-- The open conflict of a subject.
unfoldable pub find_conflict : Bytes → List Conflict → Option Conflict
find_conflict k [] = none
find_conflict k (c ∷ cs) =
    let rest = find_conflict k cs in if bytes_eq c.subject k then some c else rest

-- The conflict that a register stands for.
abbrev pub conflict_of : Bytes → Bytes → List Dot → Option Conflict
conflict_of doc_id k dots = if conflicted dots then some (conflict_for doc_id k dots) else none

find_conflict-upsert_conflict :
    (bc : Conflict) (k : Bytes) (cs : List Conflict)
    → find_conflict k (upsert_conflict bc cs)
      ≡ (if bytes_eq bc.subject k then some bc else find_conflict k cs)
unfolding find_conflict upsert_conflict
find_conflict-upsert_conflict bc k [] = refl
find_conflict-upsert_conflict bc k (c ∷ cs) = ground (
  arith,
  find_conflict-upsert_conflict bc k cs,
  bytes_eq_iff c.subject bc.subject,
  bytes_eq_iff c.subject k,
  bytes_eq_iff bc.subject k,
)

find_conflict-clear_conflict :
    (s k : Bytes) (cs : List Conflict)
    → find_conflict k (clear_conflict s cs) ≡ (if bytes_eq s k then none else find_conflict k cs)
unfolding find_conflict clear_conflict
find_conflict-clear_conflict s k [] = ground arith
find_conflict-clear_conflict s k (c ∷ cs) = ground (
  arith,
  find_conflict-clear_conflict s k cs,
  bytes_eq_iff c.subject s,
  bytes_eq_iff c.subject k,
  bytes_eq_iff s k,
)

find_conflict-noted :
    (doc_id s k : Bytes) (dots : List Dot) (cs : List Conflict)
    → find_conflict k (noted doc_id s dots cs)
      ≡ (if bytes_eq s k then conflict_of doc_id s dots else find_conflict k cs)
find_conflict-noted doc_id s k dots cs = elim (Bool-cases (conflicted dots)) [
  | inl q ↦ rw (q, find_conflict-upsert_conflict (conflict_for doc_id s dots) k cs) refl
  | inr q ↦ rw (q, find_conflict-clear_conflict s k cs) refl
]

-- Each subject has an open conflict exactly if its register is conflicted, with the live writes.
unfoldable pub Matching : Bytes → (Bytes → List Dot) → List Conflict → Type 0
Matching doc_id registers cs = (k : Bytes) → find_conflict k cs ≡ conflict_of doc_id k (registers k)

noted-Matching :
    (doc_id s : Bytes) (dots : List Dot) (registers : Bytes → List Dot) (cs : List Conflict)
    → Matching doc_id registers cs
    → Matching doc_id (update registers s dots) (noted doc_id s dots cs)
unfolding Matching
noted-Matching doc_id s dots registers cs m k = elim (Bool-cases (bytes_eq s k)) [
  | inl q ↦
      rw (find_conflict-noted doc_id s k dots cs, q)
        (ap (λ x. conflict_of doc_id x dots) ((bytes_eq_iff s k).0 q))
  | inr q ↦ rw (find_conflict-noted doc_id s k dots cs, q) (m k)
]

abbrev MatchingIn : Bytes → Progress → Type 0
MatchingIn doc_id p = Matching doc_id p.registers p.open_list

apply_patch-MatchingIn :
    (op : CrdtOp) (clock : Clock) (patch : List (Bytes × Bytes)) (p : Progress)
    → op.is_belief ≡ true
    → MatchingIn op.doc_id p
    → MatchingIn op.doc_id (apply_patch op clock patch p)
unfolding apply_patch apply_write
apply_patch-MatchingIn op clock [] p b m = m
apply_patch-MatchingIn op clock (kv ∷ patch) p b m =
    apply_patch-MatchingIn op clock patch (apply_write op clock kv p) b
      (rw b (noted-Matching op.doc_id kv.0 _ p.registers p.open_list m))

-- In every document the open conflicts match the registers.
pub record ConflictsMatch (e : Engine) : Type 0 where
  pub matching :
      (doc_id : Bytes) → Matching doc_id (known (e.docs doc_id)).registers (e.conflicts doc_id)

keep-ConflictsMatch :
    (dk : Bytes) (d : Document) (cs : List Conflict) (e : Engine)
    → Matching dk d.registers cs
    → ConflictsMatch e
    → ConflictsMatch (keep dk d cs e).1
keep-ConflictsMatch dk d cs e m i = record { matching = matching }
  where
    matching :
        (doc_id : Bytes)
        → Matching doc_id
            (known (update e.docs dk (some d) doc_id)).registers
            (update e.conflicts dk cs doc_id)
    matching doc_id = elim (Bool-cases (bytes_eq dk doc_id)) [
      | inl q ↦ rw q (subst (λ x. Matching x d.registers cs) ((bytes_eq_iff dk doc_id).0 q) m)
      | inr q ↦ rw q (i.matching doc_id)
    ]

apply-ConflictsMatch :
    (op : CrdtOp) (e : Engine)
    → op.is_belief ≡ true
    → ConflictsMatch e
    → ConflictsMatch (apply op e).1
unfolding apply
apply-ConflictsMatch op e b i = body op.patch
  where
    body : (patch : Option (List (Bytes × Bytes))) → ConflictsMatch (apply_to op patch e).1
    body none = i
    body (some patch) =
        keep-ConflictsMatch op.doc_id _ (progress_of op patch e).open_list e
          (apply_patch-MatchingIn op _ patch _ b (i.matching op.doc_id)) i

merge_from-ConflictsMatch :
    (ops : List CrdtOp) (all : List Conflict) (e : Engine)
    → All (λ op. op.is_belief ≡ true) ops
    → ConflictsMatch e
    → ConflictsMatch (merge_from ops all e).1
unfolding merge_from
merge_from-ConflictsMatch [] all e b i = i
merge_from-ConflictsMatch (op ∷ ops) all e b i =
    next (apply op e) (apply-ConflictsMatch op e b.0 i)
      (λ all' e' i'. merge_from-ConflictsMatch ops all' e' b.1 i')
  where
    next :
        (r : (List Conflict × Option StateError) × Engine)
        → ConflictsMatch r.1
        → ((all' : List Conflict) (e' : Engine)
            → ConflictsMatch e'
            → ConflictsMatch (merge_from ops all' e').1)
        → ConflictsMatch (merge_next all r (λ all' e'. merge_from ops all' e')).1
    next ((c, none), e') i' rest = rest (all ++ c) e' i'
    next ((c, some error), e') i' rest = i'

resolve_subject-ConflictsMatch :
    (doc_id resolver subject winning : Bytes) (e : Engine)
    → ConflictsMatch e
    → ConflictsMatch (resolve_subject doc_id resolver subject winning e).1
unfolding resolve_subject
resolve_subject-ConflictsMatch doc_id resolver subject winning e i =
    found (e.docs doc_id) (i.matching doc_id)
  where
    found :
        (o : Option Document)
        → Matching doc_id (known o).registers (e.conflicts doc_id)
        → ConflictsMatch (resolve_in doc_id resolver subject winning o e).1
    found none m = i
    found (some d) m =
        let kept =
          keep-ConflictsMatch doc_id _ _ e
            (noted-Matching doc_id subject _ d.registers (e.conflicts doc_id) m) i in
        elim (Bool-cases (conflicted (d.registers subject))) [ inl q ↦ rw q kept | inr q ↦ rw q i ]

checkpoint-ConflictsMatch :
    (doc_id : Bytes) (e : Engine) → ConflictsMatch e → ConflictsMatch (checkpoint doc_id e).1
unfolding checkpoint
checkpoint-ConflictsMatch doc_id e i = record { matching = matching }
  where
    matching :
        (k : Bytes)
        → Matching k
            (known (update e.docs doc_id (some (known (e.docs doc_id))) k)).registers
            (e.conflicts k)
    matching k = elim (Bool-cases (bytes_eq doc_id k)) [
      | inl q ↦ rw q (
          subst (λ x. Matching k (known (e.docs x)).registers (e.conflicts k))
            (sym ((bytes_eq_iff doc_id k).0 q)) (i.matching k))
      | inr q ↦ rw q (i.matching k)
    ]

-- The calls that change an engine, whose operations are all on beliefs.
pub data Step : Engine → Engine → Type 0 where
  applied : {e : Engine} (op : CrdtOp) → op.is_belief ≡ true → Step e (apply op e).1
  merged :
      {e : Engine} (ops : List CrdtOp)
      → All (λ op. op.is_belief ≡ true) ops
      → Step e (merge ops e).1
  resolved :
      {e : Engine} (doc_id resolver subject winning : Bytes)
      → Step e (resolve_subject doc_id resolver subject winning e).1
  checkpointed : {e : Engine} (doc_id : Bytes) → Step e (checkpoint doc_id e).1

pub data Reach : Engine → Engine → Type 0 where
  start : {e : Engine} → Reach e e
  after : {e e' e'' : Engine} → Reach e e' → Step e' e'' → Reach e e''

Step-ConflictsMatch : {e e' : Engine} → Step e e' → ConflictsMatch e → ConflictsMatch e'
Step-ConflictsMatch {e} (applied op b) i = apply-ConflictsMatch op e b i
Step-ConflictsMatch {e} (merged ops b) i = merge_from-ConflictsMatch ops [] e b i
Step-ConflictsMatch {e} (resolved d r s w) i = resolve_subject-ConflictsMatch d r s w e i
Step-ConflictsMatch {e} (checkpointed d) i = checkpoint-ConflictsMatch d e i

-- Operations on beliefs, merges of such operations only, decisions and checkpoints, in any order and
-- under any failures of the store, keep the list of open conflicts exact: a subject is on it exactly
-- if its register holds two values, and then with the register's live writes.
pub Reach-ConflictsMatch : {e e' : Engine} → Reach e e' → ConflictsMatch e → ConflictsMatch e'
Reach-ConflictsMatch start i = i
Reach-ConflictsMatch (after r s) i = Step-ConflictsMatch s (Reach-ConflictsMatch r i)
