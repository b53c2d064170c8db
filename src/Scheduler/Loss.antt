-- ===== src/Scheduler/Loss.antt =====
-- daemon/scheduler/scheduler.go: the shards of a plan after a reroute.
use cerberus.Base.{
  ℕ, suc, ◌+◌, ◌≡◌, refl, ap, List, [], ◌∷◌, Option, none, some, Result, ok, err, Bool-cases,
  length, inl, inr,
}
use cerberus.Base.Bytes.{bytes_eq}
use cerberus.Scheduler.{
  PeerId, Shard, Placement, Plan, ScheduleError, CostModel, Scheduler, rank, find_plan, keep_plan,
  primaries, pipeline_ranked, place_pipeline, bare_task, zero_shard, prev_shard, replaced,
  reroute_plan, reroute, reroute_found, replace_all,
}

module _ (cost : CostModel) where
  abbrev pub OnOk : (Plan → Type 0) → Result ScheduleError Plan × Scheduler cost → Type 0
  OnOk Q (ok p, s) = Q p
  OnOk Q (err e, s) = Unit {0}

  abbrev pub OnePlacement : Plan → Type 0
  OnePlacement p = length p.placements ≡ 1

  primaries-length :
      (ranked : List PeerId) (i : ℕ) (shards : List Shard)
      → length (primaries cost ranked i shards) ≡ length shards
  unfolding primaries
  primaries-length ranked i [] = refl
  primaries-length ranked i (sh ∷ shards) = ap suc (primaries-length ranked (i + 1) shards)

  pipeline-length :
      (id : List ℕ) (shards : List Shard) (s : Scheduler cost)
      → OnOk (λ p. length p.placements ≡ length shards) (place_pipeline cost id shards s)
  unfolding place_pipeline pipeline_ranked keep_plan
  pipeline-length id shards s = split (rank cost (bare_task id zero_shard) [] s)
    where
      split :
          (ranked : List PeerId)
          → OnOk
              (λ p. length p.placements ≡ length shards)
              (pipeline_ranked cost id shards ranked s)
      split [] = tt
      split (first ∷ rest) = primaries-length (first ∷ rest) 0 shards

  replaced-one :
      (id : List ℕ) (shard : Shard) (ranked : List PeerId) (s : Scheduler cost)
      → OnOk OnePlacement (replaced cost id shard ranked s)
  unfolding keep_plan
  replaced-one id shard [] s = tt
  replaced-one id shard (first ∷ rest) s = refl

  reroute_plan-one :
      (id : List ℕ) (lost : PeerId) (prev : Plan) (ps qs : List Placement) (s : Scheduler cost)
      → OnOk OnePlacement (reroute_plan cost id lost prev ps qs s)
  unfolding reroute_plan replace_all keep_plan
  reroute_plan-one id lost prev [] qs s = replaced-one id (prev_shard cost prev) _ s
  reroute_plan-one id lost prev (first ∷ ps) [] s = replaced-one id (prev_shard cost prev) _ s
  reroute_plan-one id lost prev (first ∷ ps) (standby ∷ qs) s =
      elim (Bool-cases (bytes_eq first.node lost)) [
        | inl e ↦ rw e refl
        | inr e ↦ rw e (replaced-one id (prev_shard cost prev) _ s)
      ]

  reroute-one :
      (id : List ℕ) (lost : PeerId) (s : Scheduler cost)
      → OnOk OnePlacement (reroute cost id lost s)
  unfolding reroute
  reroute-one id lost s = split (find_plan cost id s.plans)
    where
      split : (o : Option Plan) → OnOk OnePlacement (reroute_found cost id lost o s)
      split none = tt
      split (some prev) = reroute_plan-one id lost prev prev.placements prev.standbys s

  -- A pipeline is placed with one placement for each shard, and a reroute of it, whatever node was
  -- lost, leaves a plan with a single placement.
  pub reroute_drops_shards :
      (id : List ℕ) (shards : List Shard) (lost : PeerId) (s : Scheduler cost)
      → OnOk (λ p. length p.placements ≡ length shards) (place_pipeline cost id shards s)
        × OnOk OnePlacement (reroute cost id lost (place_pipeline cost id shards s).1)
  reroute_drops_shards id shards lost s =
      (pipeline-length id shards s, reroute-one id lost (place_pipeline cost id shards s).1)
