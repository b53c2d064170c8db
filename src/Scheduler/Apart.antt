-- ===== src/Scheduler/Apart.antt =====
-- daemon/scheduler/scheduler.go: standbys and the nodes of their primaries.
use cerberus.Base.{◌≡◌, false, List, [], ◌∷◌, map, All, Bool-cases, Option-cases, inl, inr}
use cerberus.Base.Bytes.{bytes_eq}
use cerberus.Scheduler.{
  PeerId, ComputeTask, Placement, Plan, CostModel, Scored, Scheduler, excluded, update_in,
  candidates, insert_scored, sort_scored, rank,
}
use cerberus.Scheduler.Rank.{bytes_eq_sym, insert_scored-All, sort_scored-All, candidates-All}

-- No node stands twice in a ranking.
abbrev pub Different : List PeerId → Type 0
Different [] = Unit {0}
Different (x ∷ xs) = All (λ y. bytes_eq x y ≡ false) xs × Different xs

-- Each placement and the standby beside it are on two nodes.
abbrev pub Pairs : List Placement → List Placement → Type 0
Pairs [] qs = Unit {0}
Pairs (p ∷ ps) [] = Unit {0}
Pairs (p ∷ ps) (q ∷ qs) = (bytes_eq p.node q.node ≡ false) × Pairs ps qs

abbrev pub Apart : Plan → Type 0
Apart p = Pairs p.placements p.standbys

module _ (cost : CostModel) where
  abbrev Nodes : Type 0
  Nodes = List (PeerId × cost.Telemetry)

  abbrev pub Keyed : Nodes → Type 0
  Keyed [] = Unit {0}
  Keyed (n ∷ ns) = All (λ m. bytes_eq n.0 m.0 ≡ false) ns × Keyed ns

  -- The nodes are a map, and every stored plan is `Apart`.
  pub record Valid (s : Scheduler cost) : Type 0 where
    pub keyed : Keyed s.nodes
    pub apart : All (λ e. Apart e.1) s.plans

  update_in-All :
      (P : PeerId → Type 0) (id : PeerId) (t : cost.Telemetry) (ns : Nodes)
      → P id
      → All (λ n. P n.0) ns
      → All (λ n. P n.0) (update_in cost id t ns)
  unfolding update_in
  update_in-All P id t [] p a = (p, tt)
  update_in-All P id t ((j, u) ∷ ns) p a = elim (Bool-cases (bytes_eq j id)) [
    | inl e ↦ rw e a
    | inr e ↦ rw e (a.0, update_in-All P id t ns p a.1)
  ]

  pub update_in-Keyed :
      (id : PeerId) (t : cost.Telemetry) (ns : Nodes) → Keyed ns → Keyed (update_in cost id t ns)
  unfolding update_in
  update_in-Keyed id t [] k = (tt, tt)
  update_in-Keyed id t ((j, u) ∷ ns) k = elim (Bool-cases (bytes_eq j id)) [
    | inl e ↦ rw e k
    | inr e ↦
        rw e (update_in-All (λ m. bytes_eq j m ≡ false) id t ns e k.0, update_in-Keyed id t ns k.1)
  ]

  abbrev Distinct : List (Scored cost) → Type 0
  Distinct [] = Unit {0}
  Distinct (c ∷ cs) = All (λ d. bytes_eq c.id d.id ≡ false) cs × Distinct cs

  candidates-fresh :
      (t : ComputeTask) (exclude : List PeerId) (id : PeerId) (ns : Nodes)
      → All (λ m. bytes_eq id m.0 ≡ false) ns
      → All (λ c. bytes_eq id c.id ≡ false) (candidates cost t exclude ns)
  unfolding candidates
  candidates-fresh t exclude id [] a = tt
  candidates-fresh t exclude id ((j, u) ∷ ns) a =
      let rest = candidates-fresh t exclude id ns a.1 in
      elim (Bool-cases (excluded exclude j)) [
        | inl e ↦ rw e rest
        | inr e ↦ elim (Option-cases (cost.score t u)) [
          | inl n ↦ rw (e, n) rest
          | inr (sc, n) ↦ rw (e, n) (a.0, rest)
        ]
      ]

  candidates-Distinct :
      (t : ComputeTask) (exclude : List PeerId) (ns : Nodes)
      → Keyed ns
      → Distinct (candidates cost t exclude ns)
  unfolding candidates
  candidates-Distinct t exclude [] k = tt
  candidates-Distinct t exclude ((j, u) ∷ ns) k =
      let rest = candidates-Distinct t exclude ns k.1 in
      elim (Bool-cases (excluded exclude j)) [
        | inl e ↦ rw e rest
        | inr e ↦ elim (Option-cases (cost.score t u)) [
          | inl n ↦ rw (e, n) rest
          | inr (sc, n) ↦ rw (e, n) (candidates-fresh t exclude j ns k.0, rest)
        ]
      ]

  insert_scored-Distinct :
      (c : Scored cost) (ds : List (Scored cost))
      → All (λ d. bytes_eq c.id d.id ≡ false) ds
      → Distinct ds
      → Distinct (insert_scored cost c ds)
  unfolding insert_scored
  insert_scored-Distinct c [] a k = (tt, tt)
  insert_scored-Distinct c (d ∷ ds) a k = elim (Bool-cases (cost.above d.sc c.sc)) [
    | inl e ↦ rw e (
      insert_scored-All cost (λ x. bytes_eq d.id x.id ≡ false) c ds (bytes_eq_sym c.id d.id a.0)
          k.0,
      insert_scored-Distinct c ds a.1 k.1,
    )
    | inr e ↦ rw e (a, k)
  ]

  sort_scored-Distinct : (cs : List (Scored cost)) → Distinct cs → Distinct (sort_scored cost cs)
  unfolding sort_scored
  sort_scored-Distinct [] k = tt
  sort_scored-Distinct (c ∷ cs) k =
      insert_scored-Distinct c (sort_scored cost cs)
        (sort_scored-All cost (λ d. bytes_eq c.id d.id ≡ false) cs k.0)
        (sort_scored-Distinct cs k.1)

  ids-All :
      (P : PeerId → Type 0) (cs : List (Scored cost))
      → All (λ c. P c.id) cs
      → All P (map (λ c. c.id) cs)
  ids-All P [] a = tt
  ids-All P (c ∷ cs) a = (a.0, ids-All P cs a.1)

  ids-Different : (cs : List (Scored cost)) → Distinct cs → Different (map (λ c. c.id) cs)
  ids-Different [] k = tt
  ids-Different (c ∷ cs) k = (ids-All (λ y. bytes_eq c.id y ≡ false) cs k.0, ids-Different cs k.1)

  pub rank-Different :
      (t : ComputeTask) (exclude : List PeerId) (s : Scheduler cost)
      → Keyed s.nodes
      → Different (rank cost t exclude s)
  unfolding rank
  rank-Different t exclude s k =
      ids-Different (sort_scored cost (candidates cost t exclude s.nodes)) (
        sort_scored-Distinct (candidates cost t exclude s.nodes)
          (candidates-Distinct t exclude s.nodes k))

  pub rank-excluded :
      (t : ComputeTask) (exclude : List PeerId) (s : Scheduler cost)
      → All (λ id. excluded exclude id ≡ false) (rank cost t exclude s)
  unfolding rank
  rank-excluded t exclude s =
      ids-All (λ id. excluded exclude id ≡ false)
        (sort_scored cost (candidates cost t exclude s.nodes))
        (sort_scored-All cost (λ c. excluded exclude c.id ≡ false)
          (candidates cost t exclude s.nodes)
          (candidates-All cost t (λ c. excluded exclude c.id ≡ false) exclude s.nodes
            (λ id tel sc m q x. x)))
