-- ===== src/State/Engine/Tests.antt =====
-- daemon/state/state.go: a contradiction between two replicas, its decision, and the theorems at it.
use cerberus.Base.{◌≡◌, refl, true, false, List, [], ◌∷◌, none, some}
use cerberus.Base.Bytes.{codes, bytes_eq, bytes_ltb}
use cerberus.Store
use cerberus.State.Register.{absorb}
use cerberus.State.Resolve.{conflicted, new_values, seen, resolution}
use cerberus.State.Engine.{
  CrdtOp, Engine, conflict_for, upsert_conflict, clear_conflict, apply_write, apply_patch,
  store_both, apply, merge_from, merge, resolve_subject,
}
use cerberus.State.Engine.Disk.{Bytes, persist, persist_conflicts}
use cerberus.State.Engine.Open.{
  ConflictsMatch, Matching, find_conflict, start, after, merged, resolved, Reach-ConflictsMatch,
}
use cerberus.State.Engine.Restart.{Synced, Reopened}
use cerberus.State.Engine.Durable.{merge-Reopened}

abbrev alice : Bytes
alice = codes "a1"

abbrev bob : Bytes
bob = codes "b0"

abbrev plan : Bytes
plan = codes "plan"

-- The second write to the store fails.
abbrev empty_engine : Engine
empty_engine = record {
  disk = record { opened = true; entries = []; faults = false ∷ true ∷ [] };
  docs = λ dk. none;
  conflicts = λ dk. [];
}

abbrev says : Bytes → Bytes → CrdtOp
says actor value = record {
  doc_id = plan;
  actor = actor;
  clock = (actor, 1) ∷ [];
  is_belief = true;
  patch = some ((codes "goal", value) ∷ []);
}

abbrev replicas : List CrdtOp
replicas = says alice (codes "go") ∷ says bob (codes "stop") ∷ []

empty_engine-ConflictsMatch : ConflictsMatch empty_engine
empty_engine-ConflictsMatch = record {
  matching =
      unfold Matching in λ doc_id k. unfold find_conflict in unfold conflicted new_values in refl;
}

abbrev healed : Engine
healed =
    (merge (says bob (codes "stop") ∷ []) (merge (says alice (codes "go") ∷ []) empty_engine).1).1

contradiction_shown :
    healed.conflicts plan
    ≡ conflict_for plan (codes "goal") (
        record { actor = alice; value = codes "go"; clock = (alice, 1) ∷ [] }
        ∷ record { actor = bob; value = codes "stop"; clock = (bob, 1) ∷ [] }
        ∷ [])
      ∷ []
unfolding merge_from apply apply_patch apply_write store_both persist persist_conflicts conflicted
    new_values seen upsert_conflict clear_conflict absorb bytes_eq bytes_ltb Store.put Store.delete
contradiction_shown = refl

contradiction_resolved :
    ((resolve_subject plan alice (codes "goal") (codes "wait") healed).1).conflicts plan ≡ []
unfolding merge_from apply apply_patch apply_write store_both persist persist_conflicts conflicted
    new_values seen upsert_conflict clear_conflict absorb bytes_eq bytes_ltb resolve_subject
    resolution Store.put Store.delete
contradiction_resolved = refl

Reach-ConflictsMatch_example :
    ConflictsMatch
      (resolve_subject plan alice (codes "goal") (codes "wait") (merge replicas empty_engine).1).1
Reach-ConflictsMatch_example =
    Reach-ConflictsMatch
      (after (after start (merged replicas (refl, (refl, tt))))
        (resolved plan alice (codes "goal") (codes "wait")))
      empty_engine-ConflictsMatch

-- A store that fails nothing.
abbrev new_engine : Engine
new_engine = record {
  disk = record { opened = true; entries = []; faults = [] };
  docs = λ dk. none;
  conflicts = λ dk. [];
}

new_engine-Synced : Synced new_engine
new_engine-Synced = record { documents = λ k. refl; open_lists = λ k. refl; distinct = tt }

no_error : (merge replicas new_engine).0.1 ≡ none
unfolding merge_from apply apply_patch apply_write store_both persist persist_conflicts conflicted
    new_values seen upsert_conflict clear_conflict absorb bytes_eq bytes_ltb Store.put Store.delete
no_error = refl

merge-Reopened_example : Reopened (merge replicas new_engine).1
merge-Reopened_example = merge-Reopened replicas new_engine new_engine-Synced no_error
