-- ===== src/Scheduler/Tests.antt =====
-- daemon/scheduler/scheduler.go: three nodes, one of them lost, and the theorems at them.
use cerberus.Base.{ℕ, ◌≡◌, refl, List, [], ◌∷◌, none, some, arith, ltb, length, if◌then◌else◌}
use cerberus.Base.Bytes.{bytes_eq}
use cerberus.Scheduler.{
  PeerId, Shard, ComputeTask, CostModel, Scheduler, place, place_pipeline, reroute, bare_task,
  zero_shard,
}
use cerberus.Scheduler.Rank.{ScoreOrder}
use cerberus.Scheduler.Best.{Placed, place-Placed}
use cerberus.Scheduler.Apart.{Valid}
use cerberus.Scheduler.Reroute.{OkAvoids, reroute-OkAvoids}
use cerberus.Scheduler.Steps.{here, next, placed, piped, Reach-Valid}
use cerberus.Scheduler.Loss.{OnOk, OnePlacement, reroute_drops_shards}

-- A node's telemetry is its score; 0 is infeasible.
abbrev by_score : CostModel
by_score = record {
  Telemetry = ℕ;
  Score = ℕ;
  above = λ a b. ltb b a;
  score = λ t n. if ltb 0 n then some n else none;
}

by_score-ScoreOrder : ScoreOrder by_score
by_score-ScoreOrder = record { asym = λ a b h. ground arith; neg_trans = λ a b c h k. ground arith }

abbrev node : ℕ → PeerId
node n = n ∷ []

abbrev empty : Scheduler by_score
empty = record { nodes = []; plans = [] }

abbrev task : ComputeTask
task = bare_task (9 ∷ []) zero_shard

abbrev three_nodes : Scheduler by_score
three_nodes = record {
  nodes = (node 1, 4) ∷ (node 2, 8) ∷ (node 3, 0) ∷ (node 4, 6) ∷ [];
  plans = [];
}

abbrev two_shards : List Shard
two_shards =
    zero_shard ∷ record { kind = 0; layer_lo = 4; layer_hi = 8; tp_rank = 0; tp_world = 0 } ∷ []

three_nodes-Valid : Valid by_score three_nodes
three_nodes-Valid = record {
  keyed =
      unfold bytes_eq in ((refl, (refl, (refl, tt))), ((refl, (refl, tt)), ((refl, tt), (tt, tt))));
  apart = tt;
}

place-Placed_example : Placed by_score task three_nodes (place by_score task three_nodes)
place-Placed_example = place-Placed by_score task by_score-ScoreOrder three_nodes

reroute-OkAvoids_example :
    OkAvoids by_score
      (node 2)
      (reroute by_score (9 ∷ []) (node 2) (place by_score task three_nodes).1)
reroute-OkAvoids_example =
    reroute-OkAvoids by_score (9 ∷ []) (node 2) (place by_score task three_nodes).1
      (Reach-Valid by_score (next here (placed task)) three_nodes-Valid)

Reach-Valid_example :
    Valid by_score
      (place_pipeline by_score (8 ∷ []) two_shards (place by_score task three_nodes).1).1
Reach-Valid_example =
    Reach-Valid by_score (next (next here (placed task)) (piped (8 ∷ []) two_shards))
      three_nodes-Valid

reroute_drops_shards_example :
    OnOk by_score
      (λ p. length p.placements ≡ length two_shards)
      (place_pipeline by_score (8 ∷ []) two_shards three_nodes)
    × OnOk by_score (OnePlacement by_score) (
        reroute by_score
          (8 ∷ [])
          (node 4)
          (place_pipeline by_score (8 ∷ []) two_shards three_nodes).1)
reroute_drops_shards_example =
    reroute_drops_shards by_score (8 ∷ []) two_shards (node 4) three_nodes
