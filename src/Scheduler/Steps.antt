-- ===== src/Scheduler/Steps.antt =====
-- daemon/scheduler/scheduler.go: sequences of calls on a scheduler.
use cerberus.Base.{ℕ, List, [], ◌∷◌}
use cerberus.Scheduler.{
  PeerId, ComputeTask, Shard, CostModel, Scheduler, update_node, place, place_pipeline, reroute,
  reroute_keys, reroute_node, affected,
}
use cerberus.Scheduler.Apart.{Valid, update_in-Keyed}
use cerberus.Scheduler.Reroute.{place-Valid, place_pipeline-Valid, reroute-Rerouted}

module _ (cost : CostModel) where
  -- One call on the scheduler.
  pub data Step (s : Scheduler cost) : Scheduler cost → Type 0 where
    updated : (id : PeerId) (t : cost.Telemetry) → Step s (update_node cost id t s)
    placed : (t : ComputeTask) → Step s (place cost t s).1
    piped : (id : List ℕ) (shards : List Shard) → Step s (place_pipeline cost id shards s).1
    rerouted : (id : List ℕ) (lost : PeerId) → Step s (reroute cost id lost s).1
    node_lost : (lost : PeerId) → Step s (reroute_node cost lost s).1

  pub data Reach (s : Scheduler cost) : Scheduler cost → Type 0 where
    here : Reach s s
    next : {t u : Scheduler cost} → Reach s t → Step t u → Reach s u

  reroute_keys-Valid :
      (lost : PeerId) (ks : List (List ℕ)) (s : Scheduler cost)
      → Valid cost s
      → Valid cost (reroute_keys cost lost ks s).1
  unfolding reroute_keys
  reroute_keys-Valid lost [] s v = v
  reroute_keys-Valid lost (k ∷ ks) s v =
      reroute_keys-Valid lost ks (reroute cost k lost s).1 (reroute-Rerouted cost k lost s v).0

  Step-Valid : {s t : Scheduler cost} → Step s t → Valid cost s → Valid cost t
  unfolding update_node reroute_node
  Step-Valid {s} (updated id t) v = record {
    keyed = update_in-Keyed cost id t s.nodes v.keyed;
    apart = v.apart;
  }
  Step-Valid {s} (placed t) v = place-Valid cost t s v
  Step-Valid {s} (piped id shards) v = place_pipeline-Valid cost id shards s v
  Step-Valid {s} (rerouted id lost) v = (reroute-Rerouted cost id lost s v).0
  Step-Valid {s} (node_lost lost) v = reroute_keys-Valid lost (affected cost lost s.plans) s v

  -- Every scheduler that calls lead to from a valid one is valid: no stored plan has a standby on
  -- the node of the placement that it stands by for.
  pub Reach-Valid : {s t : Scheduler cost} → Reach s t → Valid cost s → Valid cost t
  Reach-Valid here v = v
  Reach-Valid (next r st) v = Step-Valid st (Reach-Valid r v)
