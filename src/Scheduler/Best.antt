-- ===== src/Scheduler/Best.antt =====
-- daemon/scheduler/scheduler.go: the node that `Place` chooses.
use cerberus.Base.{◌≡◌, refl, sym, subst, Bool, true, false, List, [], ◌∷◌, map, Result, err, All}
use cerberus.Scheduler.{
  PeerId, ComputeTask, Plan, ScheduleError, no_feasible_node, CostModel, Scored, Scheduler,
  candidates, sort_scored, rank, place, place_ranked, pair_plan, keep_plan,
}
use cerberus.Scheduler.Rank.{
  ScoreOrder, Sorted, Feasible, sort_scored-All, All-sort_scored, sort_scored-Sorted,
  candidates-All, All-candidates,
}

module _ (cost : CostModel) (t : ComputeTask) where
  -- A feasible node such that no feasible node scores above it.
  pub record Best (ns : List (PeerId × cost.Telemetry)) (id : PeerId) : Type 0 where
    pub sc : cost.Score
    pub feasible : Feasible cost t ns id sc
    pub unbeaten :
        (other : PeerId) (its : cost.Score)
        → Feasible cost t ns other its
        → cost.above its sc ≡ false

  -- What `Place` does on a scheduler.
  pub data Placed (s : Scheduler cost) : Result ScheduleError Plan × Scheduler cost → Type 0 where
    on_best :
        (first : PeerId) (rest : List PeerId)
        → Best s.nodes first
        → Placed s (keep_plan cost t.task_id (pair_plan cost t.task_id t.shard t.caps first rest) s)
    refused :
        ((id : PeerId) (sc : cost.Score) → Feasible cost t s.nodes id sc → ⊥)
        → Placed s (err no_feasible_node, s)

  none-Feasible :
      (ns : List (PeerId × cost.Telemetry))
      → sort_scored cost (candidates cost t [] ns) ≡ []
      → (id : PeerId) (sc : cost.Score) → Feasible cost t ns id sc
      → ⊥
  none-Feasible ns e id sc (tel, m, q) =
      let nothing : All (λ _. ⊥) (candidates cost t [] ns) =
        All-sort_scored cost (λ _. ⊥) (candidates cost t [] ns)
          (subst (λ cs. All (λ _. ⊥) cs) (sym e) tt) in
      All-candidates cost t (λ _. ⊥) ns nothing id tel sc m q

  Best-first :
      (o : ScoreOrder cost) (ns : List (PeerId × cost.Telemetry)) (c : Scored cost)
      (cs : List (Scored cost))
      → sort_scored cost (candidates cost t [] ns) ≡ c ∷ cs
      → Best ns c.id
  Best-first o ns c cs e = record {
    sc = c.sc;
    feasible = (subst (λ ds. All (λ d. Feasible cost t ns d.id d.sc) ds) e all_feasible).0;
    unbeaten = λ other its (tel, m, q).
        All-candidates cost t (λ d. cost.above d.sc c.sc ≡ false) ns all_below other tel its m q;
  }
    where
      all_feasible :
          All (λ d. Feasible cost t ns d.id d.sc) (sort_scored cost (candidates cost t [] ns))
      all_feasible =
          sort_scored-All cost (λ d. Feasible cost t ns d.id d.sc) (candidates cost t [] ns)
            (candidates-All cost t (λ d. Feasible cost t ns d.id d.sc) [] ns
              (λ id tel sc m q _. (tel, m, q)))

      self : (b : Bool) → cost.above c.sc c.sc ≡ b → cost.above c.sc c.sc ≡ false
      self true q = o.asym c.sc c.sc q
      self false q = q

      all_below : All (λ d. cost.above d.sc c.sc ≡ false) (candidates cost t [] ns)
      all_below =
          All-sort_scored cost (λ d. cost.above d.sc c.sc ≡ false) (candidates cost t [] ns)
            (subst (λ ds. All (λ d. cost.above d.sc c.sc ≡ false) ds) (sym e)
              (
                self (cost.above c.sc c.sc) refl,
                (subst (λ ds. Sorted cost ds) e
                    (sort_scored-Sorted cost o (candidates cost t [] ns))).0,
              ))

  -- `Place` puts the task on a feasible node that no feasible node scores above, and stores that
  -- plan; only where no node is feasible it refuses, and changes nothing.
  pub place-Placed : ScoreOrder cost → (s : Scheduler cost) → Placed s (place cost t s)
  unfolding place rank
  place-Placed o s = split (sort_scored cost (candidates cost t [] s.nodes)) refl
    where
      split :
          (cs : List (Scored cost))
          → sort_scored cost (candidates cost t [] s.nodes) ≡ cs
          → Placed s (place_ranked cost t (map (λ c. c.id) cs) s)
      split [] e = refused (none-Feasible s.nodes e)
      split (c ∷ cs) e = on_best c.id (map (λ d. d.id) cs) (Best-first o s.nodes c cs e)
