-- ===== src/State/Engine.antt =====
-- daemon/state/state.go: the engine over its store. A document is known by the hex text of its id,
-- its registers are a function of the key, and a key without an entry has the empty register. What
-- json.Unmarshal makes of a delta is a field of the operation; a stored value is what was marshalled.
pub mod Disk
pub mod Open
pub mod Load
pub mod Restart
pub mod Durable
mod Tests
use cerberus.Base.{
  ℕ, ◌+◌, ◌%◌, ◌^◌, Bool, true, false, not, ◌&&◌, ◌||◌, List, [], ◌∷◌, ◌++◌, Option, none, some,
  ltb, ◌==◌, length, if◌then◌else◌, Result, ok, err,
}
use cerberus.Base.Bytes.{bytes_eq, bytes_ltb}
use cerberus.Store.{Store, StoreError}
use cerberus.State.Clock.{Clock, get, merge_max}
use cerberus.State.Register.{Dot, absorb}
use cerberus.State.Resolve.{conflicted, resolution}
use Disk.{Bytes, Document, Conflict, StateKey, StateValue, persist, persist_conflicts}

pub record CrdtOp : Type 0 where
  pub doc_id : Bytes
  pub actor : Bytes
  pub clock : Clock
  pub is_belief : Bool
  pub patch : Option (List (Bytes × Bytes))

pub record Engine : Type 0 where
  pub disk : Store StateKey StateValue
  pub docs : Bytes → Option Document
  pub conflicts : Bytes → List Conflict

pub data StateError : Type 0 where
  bad_delta : StateError
  store_failed : StoreError → StateError

abbrev pub update : {A : Type 0} → (Bytes → A) → Bytes → A → Bytes → A
update f k a x = if bytes_eq k x then a else f x

abbrev pub new_document : Document
new_document = record { clock = []; registers = λ k. [] }

abbrev pub known : Option Document → Document
known none = new_document
known (some d) = d

abbrev pub conflict_for : Bytes → Bytes → List Dot → Conflict
conflict_for doc_id subject dots = record { doc_id = doc_id; subject = subject; candidates = dots }

unfoldable pub upsert_conflict : Conflict → List Conflict → List Conflict
upsert_conflict bc [] = bc ∷ []
upsert_conflict bc (c ∷ cs) =
    let rest = upsert_conflict bc cs in if bytes_eq c.subject bc.subject then bc ∷ cs else c ∷ rest

unfoldable pub clear_conflict : Bytes → List Conflict → List Conflict
clear_conflict subject [] = []
clear_conflict subject (c ∷ cs) =
    let rest = clear_conflict subject cs in
    if not (bytes_eq c.subject subject) then c ∷ rest else rest

-- The list of open conflicts after a register has changed, as `apply` and `Resolve` keep it.
abbrev pub noted : Bytes → Bytes → List Dot → List Conflict → List Conflict
noted doc_id subject dots open_list =
    if conflicted dots
    then upsert_conflict (conflict_for doc_id subject dots) open_list
    else clear_conflict subject open_list

-- The registers, the open conflicts and what was surfaced, in the loop over the patch.
pub record Progress : Type 0 where
  pub registers : Bytes → List Dot
  pub open_list : List Conflict
  pub surfaced : List Conflict

unfoldable pub apply_write : CrdtOp → Clock → Bytes × Bytes → Progress → Progress
apply_write op clock (k, v) p =
    let dots : List Dot =
      absorb (record { actor = op.actor; value = v; clock = clock }) (p.registers k) in
    let bc : Conflict = conflict_for op.doc_id k dots in
    record {
      registers = update p.registers k dots;
      open_list = if op.is_belief then noted op.doc_id k dots p.open_list else p.open_list;
      surfaced = if op.is_belief && conflicted dots then p.surfaced ++ (bc ∷ []) else p.surfaced;
    }

unfoldable pub apply_patch : CrdtOp → Clock → List (Bytes × Bytes) → Progress → Progress
apply_patch op clock [] p = p
apply_patch op clock (kv ∷ patch) p = apply_patch op clock patch (apply_write op clock kv p)

-- An empty clock counts the actor's next write.
abbrev pub op_clock : CrdtOp → Document → Clock
op_clock op d =
    if length op.clock == 0 then (op.actor, (get d.clock op.actor + 1) % 2 ^ 64) ∷ [] else op.clock

abbrev pub failure : Result StoreError (Unit {0}) → Option StateError
failure (ok tt) = none
failure (err e) = some (store_failed e)

-- The document first, and the conflicts only if that went well.
abbrev pub conflicts_after :
    Bytes
    → List Conflict
    → Result StoreError (Unit {0}) × Store StateKey StateValue
    → Option StateError × Store StateKey StateValue
conflicts_after dk open_list (ok tt, s) =
    let (r, s') = persist_conflicts dk open_list s in (failure r, s')
conflicts_after dk open_list (err e, s) = (some (store_failed e), s)

unfoldable pub store_both :
    Bytes
    → Document
    → List Conflict
    → Store StateKey StateValue
    → Option StateError × Store StateKey StateValue
store_both dk d open_list s = conflicts_after dk open_list (persist dk d s)

-- The engine with a changed document, in memory and then on disk.
abbrev pub keep : Bytes → Document → List Conflict → Engine → Option StateError × Engine
keep dk d open_list e =
    let (error, disk) = store_both dk d open_list e.disk in
    (
      error,
      record {
        disk = disk;
        docs = update e.docs dk (some d);
        conflicts = update e.conflicts dk open_list;
      },
    )

abbrev pub progress_of : CrdtOp → List (Bytes × Bytes) → Engine → Progress
progress_of op patch e =
    let d : Document = known (e.docs op.doc_id) in
    apply_patch op (op_clock op d) patch
      (record { registers = d.registers; open_list = e.conflicts op.doc_id; surfaced = [] })

abbrev pub apply_to :
    CrdtOp → Option (List (Bytes × Bytes)) → Engine → (List Conflict × Option StateError) × Engine
apply_to op none e = (([], some bad_delta), e)
apply_to op (some patch) e =
    let d : Document = known (e.docs op.doc_id) in
    let p : Progress = progress_of op patch e in
    let d' : Document = record {
      clock = merge_max d.clock (op_clock op d);
      registers = p.registers;
    } in
    let (error, e') = keep op.doc_id d' p.open_list e in ((p.surfaced, error), e')

-- `apply` returns what it surfaced also where a write to the store fails.
unfoldable pub apply : CrdtOp → Engine → (List Conflict × Option StateError) × Engine
apply op e = apply_to op op.patch e

abbrev pub merge_next :
    List Conflict
    → (List Conflict × Option StateError) × Engine
    → (List Conflict → Engine → (List Conflict × Option StateError) × Engine)
    → (List Conflict × Option StateError) × Engine
merge_next all ((c, none), e) rest = rest (all ++ c) e
merge_next all ((c, some error), e) rest = ((all, some error), e)

unfoldable pub merge_from :
    List CrdtOp → List Conflict → Engine → (List Conflict × Option StateError) × Engine
merge_from [] all e = ((all, none), e)
merge_from (op ∷ ops) all e = merge_next all (apply op e) (λ all' e'. merge_from ops all' e')

abbrev pub merge : List CrdtOp → Engine → (List Conflict × Option StateError) × Engine
merge remote e = merge_from remote [] e

abbrev pub conflicts : Bytes → Engine → List Conflict
conflicts doc_id e = e.conflicts doc_id

-- What `Resolve` does to a document that it finds.
abbrev pub resolve_in :
    Bytes → Bytes → Bytes → Bytes → Option Document → Engine → (Bool × Option StateError) × Engine
resolve_in doc_id resolver subject winning none e = ((false, none), e)
resolve_in doc_id resolver subject winning (some d) e =
    let w : Dot = resolution d.clock (d.registers subject) resolver winning in
    let dots : List Dot = absorb w (d.registers subject) in
    let d' : Document = record {
      clock = merge_max d.clock w.clock;
      registers = update d.registers subject dots;
    } in
    let (error, e') = keep doc_id d' (noted doc_id subject dots (e.conflicts doc_id)) e in
    if conflicted (d.registers subject) then ((true, error), e') else ((false, none), e)

unfoldable pub resolve_subject :
    Bytes → Bytes → Bytes → Bytes → Engine → (Bool × Option StateError) × Engine
resolve_subject doc_id resolver subject winning e =
    resolve_in doc_id resolver subject winning (e.docs doc_id) e

-- `Checkpoint`: the document that it wrote, or the store's error.
unfoldable pub checkpoint : Bytes → Engine → Result StateError Document × Engine
checkpoint doc_id e =
    let d : Document = known (e.docs doc_id) in
    let (r, disk) = persist doc_id d e.disk in
    (
      elim (failure r) [ none ↦ ok d | some error ↦ err error ],
      record e { disk = disk; docs = update e.docs doc_id (some d) },
    )

-- lwwKey: the actor's own counter, then the value, then the actor.
abbrev pub greater : Dot → Dot → Bool
greater a b =
    if not (get a.clock a.actor == get b.clock b.actor)
    then ltb (get b.clock b.actor) (get a.clock a.actor)
    else if not (bytes_eq a.value b.value)
    then bytes_ltb b.value a.value
    else bytes_ltb b.actor a.actor

unfoldable pub best_of : Dot → List Dot → Dot
best_of best [] = best
best_of best (d ∷ dots) = best_of (if greater d best then d else best) dots

unfoldable pub lww_value : List Dot → Option Bytes
lww_value [] = none
lww_value (d ∷ dots) = some (best_of d dots).value

unfoldable pub get_value : Bytes → Bytes → Engine → Option Bytes
get_value doc_id key e = elim (e.docs doc_id) [ none ↦ none | some d ↦ lww_value (d.registers key) ]
