-- ===== src/Scheduler/Reroute.antt =====
-- daemon/scheduler/scheduler.go: the operations on a scheduler, and the nodes of a rerouted plan.
use cerberus.Base.{
  ℕ, ◌≡◌, refl, subst, true, false, List, [], ◌∷◌, Option, none, some, Result, ok, err, arith,
  if◌then◌else◌, All, Bool-cases, ltb, length, ◌⊎◌, inl, inr,
}
use mathlib.Core.Option.{some_inj}
use cerberus.Base.Bytes.{bytes_eq, bytes_eq_iff}
use cerberus.Scheduler.{
  PeerId, ComputeTask, Shard, Placement, Plan, ScheduleError, CostModel, Scheduler, excluded, rank,
  set_plan, find_plan, keep_plan, pair_plan, place_ranked, place, primaries, backups,
  pipeline_ranked, place_pipeline, bare_task, zero_shard, prev_shard, promoted, replaced,
  reroute_plan, reroute, reroute_found, replace_all,
}
use cerberus.Scheduler.Rank.{bytes_eq_sym}
use cerberus.Scheduler.Apart.{Different, Pairs, Apart, Valid, rank-Different, rank-excluded}
use cerberus.Scheduler.Pipeline.{shards-Pairs}

module _ (cost : CostModel) where
  set_plan-All :
      (key : List ℕ) (plan : Plan) (ps : List (List ℕ × Plan))
      → Apart plan
      → All (λ e. Apart e.1) ps
      → All (λ e. Apart e.1) (set_plan cost key plan ps)
  unfolding set_plan
  set_plan-All key plan [] p a = (p, tt)
  set_plan-All key plan ((k, q) ∷ ps) p a = elim (Bool-cases (bytes_eq k key)) [
    | inl e ↦ rw e (p, a.1)
    | inr e ↦ rw e (a.0, set_plan-All key plan ps p a.1)
  ]

  keep_plan-Valid :
      (key : List ℕ) (plan : Plan) (s : Scheduler cost)
      → Apart plan
      → Valid cost s
      → Valid cost (keep_plan cost key plan s).1
  unfolding keep_plan
  keep_plan-Valid key plan s p v = record {
    keyed = v.keyed;
    apart = set_plan-All key plan s.plans p v.apart;
  }

  find_plan-All :
      (key : List ℕ) (ps : List (List ℕ × Plan)) (p : Plan)
      → find_plan cost key ps ≡ some p
      → All (λ e. Apart e.1) ps
      → Apart p
  unfolding find_plan
  find_plan-All key [] p h a = cc
  find_plan-All key ((k, q) ∷ ps) p h a = elim (Bool-cases (bytes_eq k key)) [
    | inl e ↦ subst Apart (some_inj.0 (rw e at h)) a.0
    | inr e ↦ find_plan-All key ps p (rw e at h) a.1
  ]

  pair_plan-Apart :
      (id : List ℕ) (shard : Shard) (caps : List (List ℕ)) (first : PeerId) (rest : List PeerId)
      → Different (first ∷ rest)
      → Apart (pair_plan cost id shard caps first rest)
  pair_plan-Apart id shard caps first [] d = tt
  pair_plan-Apart id shard caps first (second ∷ rest) d = (d.0.0, tt)

  pub place-Valid :
      (t : ComputeTask) (s : Scheduler cost) → Valid cost s → Valid cost (place cost t s).1
  unfolding place
  place-Valid t s v = split (rank cost t [] s) (rank-Different cost t [] s v.keyed)
    where
      split :
          (ranked : List PeerId) → Different ranked → Valid cost (place_ranked cost t ranked s).1
      split [] d = v
      split (first ∷ rest) d =
          keep_plan-Valid t.task_id (pair_plan cost t.task_id t.shard t.caps first rest) s
            (pair_plan-Apart t.task_id t.shard t.caps first rest d) v

  no_standbys : (ps : List Placement) → Pairs ps []
  no_standbys [] = tt
  no_standbys (p ∷ ps) = tt

  pub place_pipeline-Valid :
      (id : List ℕ) (shards : List Shard) (s : Scheduler cost)
      → Valid cost s
      → Valid cost (place_pipeline cost id shards s).1
  unfolding place_pipeline pipeline_ranked
  place_pipeline-Valid id shards s v =
      split (rank cost (bare_task id zero_shard) [] s) (rank-Different cost _ [] s v.keyed)
    where
      split :
          (ranked : List PeerId)
          → Different ranked
          → Valid cost (pipeline_ranked cost id shards ranked s).1
      split [] d = v
      split (first ∷ rest) d =
          keep_plan-Valid id _ s (paired (Bool-cases (ltb 1 (length (first ∷ rest))))) v
        where
          paired :
              (ltb 1 (length (first ∷ rest)) ≡ true) ⊎ (ltb 1 (length (first ∷ rest)) ≡ false)
              → Pairs (primaries cost (first ∷ rest) 0 shards) (
                  if ltb 1 (length (first ∷ rest))
                  then backups cost (first ∷ rest) 0 shards
                  else [])
          paired (inl b) = rw b (shards-Pairs cost (first ∷ rest) 0 shards d (ground arith))
          paired (inr b) = rw b (no_standbys (primaries cost (first ∷ rest) 0 shards))

  -- What a reroute promises of its plan.
  abbrev pub Avoids : PeerId → Plan → Type 0
  Avoids lost p =
      All (λ q. bytes_eq q.node lost ≡ false) p.placements
      × All (λ q. bytes_eq q.node lost ≡ false) p.standbys

  abbrev pub OkAvoids : PeerId → Result ScheduleError Plan × Scheduler cost → Type 0
  OkAvoids lost (ok p, s) = Avoids lost p
  OkAvoids lost (err e, s) = Unit {0}

  not_excluded :
      (x : PeerId) (xs : List PeerId) (id : PeerId)
      → excluded (x ∷ xs) id ≡ false
      → (bytes_eq id x ≡ false) × (excluded xs id ≡ false)
  unfolding excluded
  not_excluded x xs id h = (bytes_eq_sym x id (ground arith), ground arith)

  -- A reroute's result: the scheduler it leaves, and its plan.
  abbrev pub Rerouted : PeerId → Result ScheduleError Plan × Scheduler cost → Type 0
  Rerouted lost r = Valid cost r.1 × OkAvoids lost r

  replaced-Rerouted :
      (id : List ℕ) (lost : PeerId) (shard : Shard) (ranked : List PeerId) (s : Scheduler cost)
      → Valid cost s
      → Different ranked
      → All (λ x. excluded (lost ∷ []) x ≡ false) ranked
      → Rerouted lost (replaced cost id shard ranked s)
  unfolding keep_plan
  replaced-Rerouted id lost shard [] s v d a = (v, tt)
  replaced-Rerouted id lost shard (first ∷ rest) s v d a = (
    keep_plan-Valid id (pair_plan cost id shard [] first rest) s
        (pair_plan-Apart id shard [] first rest d) v,
    avoids rest a,
  )
    where
      avoids :
          (rest : List PeerId)
          → All (λ x. excluded (lost ∷ []) x ≡ false) (first ∷ rest)
          → Avoids lost (pair_plan cost id shard [] first rest)
      avoids [] b = (((not_excluded lost [] first b.0).0, tt), tt)
      avoids (second ∷ rest) b =
          (((not_excluded lost [] first b.0).0, tt), ((not_excluded lost [] second b.1.0).0, tt))

  promoted-Rerouted :
      (id : List ℕ) (lost : PeerId) (first standby : Placement) (ranked : List PeerId)
      (s : Scheduler cost)
      → Valid cost s
      → bytes_eq standby.node lost ≡ false
      → All (λ x. excluded (lost ∷ standby.node ∷ []) x ≡ false) ranked
      → Rerouted lost (keep_plan cost id (promoted cost id first standby ranked) s)
  unfolding keep_plan
  promoted-Rerouted id lost first standby ranked s v n a = (
    keep_plan-Valid id (promoted cost id first standby ranked) s (apart ranked a) v,
    avoids ranked a,
  )
    where
      apart :
          (ranked : List PeerId)
          → All (λ x. excluded (lost ∷ standby.node ∷ []) x ≡ false) ranked
          → Apart (promoted cost id first standby ranked)
      apart [] a = tt
      apart (x ∷ xs) a = (
        bytes_eq_sym x standby.node
            (not_excluded standby.node [] x (not_excluded lost (standby.node ∷ []) x a.0).1).0,
        tt,
      )

      avoids :
          (ranked : List PeerId)
          → All (λ x. excluded (lost ∷ standby.node ∷ []) x ≡ false) ranked
          → Avoids lost (promoted cost id first standby ranked)
      avoids [] a = ((n, tt), tt)
      avoids (x ∷ xs) a = ((n, tt), ((not_excluded lost (standby.node ∷ []) x a.0).0, tt))

  module _ (id : List ℕ) (lost : PeerId) (s : Scheduler cost) (v : Valid cost s) where
    replace_all-Rerouted : (prev : Plan) → Rerouted lost (replace_all cost id lost prev s)
    unfolding replace_all
    replace_all-Rerouted prev =
        replaced-Rerouted id lost (prev_shard cost prev)
          (rank cost (bare_task id (prev_shard cost prev)) (lost ∷ []) s) s v
          (rank-Different cost (bare_task id (prev_shard cost prev)) (lost ∷ []) s v.keyed)
          (rank-excluded cost (bare_task id (prev_shard cost prev)) (lost ∷ []) s)

    reroute_plan-Rerouted :
        (prev : Plan) (ps qs : List Placement)
        → Pairs ps qs
        → Rerouted lost (reroute_plan cost id lost prev ps qs s)
    unfolding reroute_plan
    reroute_plan-Rerouted prev [] qs a = replace_all-Rerouted prev
    reroute_plan-Rerouted prev (first ∷ ps) [] a = replace_all-Rerouted prev
    reroute_plan-Rerouted prev (first ∷ ps) (standby ∷ qs) a =
        elim (Bool-cases (bytes_eq first.node lost)) [
          | inl e ↦
              let same : first.node ≡ lost = (bytes_eq_iff first.node lost).0 e in
              rw e (
                promoted-Rerouted id lost first standby
                  (rank cost (bare_task id first.shard) (lost ∷ standby.node ∷ []) s) s v
                  (bytes_eq_sym lost standby.node
                    (subst (λ n. bytes_eq n standby.node ≡ false) same a.0))
                  (rank-excluded cost (bare_task id first.shard) (lost ∷ standby.node ∷ []) s))
          | inr e ↦ rw e (replace_all-Rerouted prev)
        ]

    pub reroute-Rerouted : Rerouted lost (reroute cost id lost s)
    unfolding reroute
    reroute-Rerouted = split (find_plan cost id s.plans) refl
      where
        split :
            (o : Option Plan)
            → find_plan cost id s.plans ≡ o
            → Rerouted lost (reroute_found cost id lost o s)
        split none e = (v, tt)
        split (some prev) e =
            reroute_plan-Rerouted prev prev.placements prev.standbys
              (find_plan-All id s.plans prev e v.apart)

    -- Rerouting a task around a lost node on a valid scheduler yields no plan that uses the node,
    -- as a primary or as a standby.
    pub reroute-OkAvoids : OkAvoids lost (reroute cost id lost s)
    reroute-OkAvoids = reroute-Rerouted.1
