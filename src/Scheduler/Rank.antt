-- ===== src/Scheduler/Rank.antt =====
-- daemon/scheduler/scheduler.go: what the ranking puts first, and what it leaves out.
use cerberus.Base.{
  ◌≡◌, inl, inr, refl, ap, sym, ◌∙◌, subst, true, false, List, [], ◌∷◌, some, All, Bool-cases,
  Option-cases,
}
use mathlib.Core.List.{Memᴰ}
use cerberus.Base.Bytes.{bytes_eq, bytes_eq_iff}
use cerberus.Scheduler.{
  PeerId, ComputeTask, CostModel, Scored, excluded, candidates, insert_scored, sort_scored,
}

-- Scores are ordered as numbers are: `above` is a strict weak order.
pub record ScoreOrder (cost : CostModel) : Type 0 where
  pub asym : (a b : cost.Score) → cost.above a b ≡ true → cost.above b a ≡ false
  pub neg_trans :
      (a b c : cost.Score)
      → cost.above a b ≡ false
      → cost.above b c ≡ false
      → cost.above a c ≡ false

pub bytes_eq_sym : (a b : PeerId) → bytes_eq a b ≡ false → bytes_eq b a ≡ false
bytes_eq_sym a b h = elim (Bool-cases (bytes_eq b a)) [
  | inl e ↦ cc ((bytes_eq_iff a b).1 (sym ((bytes_eq_iff b a).0 e)), h)
  | inr e ↦ e
]

module _ (cost : CostModel) where
  pub insert_scored-All :
      (P : Scored cost → Type 0) (c : Scored cost) (ds : List (Scored cost))
      → P c
      → All P ds
      → All P (insert_scored cost c ds)
  unfolding insert_scored
  insert_scored-All P c [] p a = (p, tt)
  insert_scored-All P c (d ∷ ds) p a = elim (Bool-cases (cost.above d.sc c.sc)) [
    | inl e ↦ rw e (a.0, insert_scored-All P c ds p a.1)
    | inr e ↦ rw e (p, a)
  ]

  All-insert_scored :
      (P : Scored cost → Type 0) (c : Scored cost) (ds : List (Scored cost))
      → All P (insert_scored cost c ds)
      → P c × All P ds
  unfolding insert_scored
  All-insert_scored P c [] a = (a.0, tt)
  All-insert_scored P c (d ∷ ds) a = elim (Bool-cases (cost.above d.sc c.sc)) [
    | inl e ↦ let (h, t) = (rw e at a) in let (p, q) = All-insert_scored P c ds t in (p, (h, q))
    | inr e ↦ rw e at a
  ]

  pub sort_scored-All :
      (P : Scored cost → Type 0) (cs : List (Scored cost)) → All P cs → All P (sort_scored cost cs)
  unfolding sort_scored
  sort_scored-All P [] a = tt
  sort_scored-All P (c ∷ cs) a =
      insert_scored-All P c (sort_scored cost cs) a.0 (sort_scored-All P cs a.1)

  pub All-sort_scored :
      (P : Scored cost → Type 0) (cs : List (Scored cost)) → All P (sort_scored cost cs) → All P cs
  unfolding sort_scored
  All-sort_scored P [] a = tt
  All-sort_scored P (c ∷ cs) a =
      let (p, q) = All-insert_scored P c (sort_scored cost cs) a in (p, All-sort_scored P cs q)

  -- No later candidate scores above an earlier one.
  abbrev pub Sorted : List (Scored cost) → Type 0
  Sorted [] = Unit {0}
  Sorted (c ∷ cs) = All (λ d. cost.above d.sc c.sc ≡ false) cs × Sorted cs

  module _ (o : ScoreOrder cost) where
    below-All :
        (c d : Scored cost) (ds : List (Scored cost))
        → cost.above d.sc c.sc ≡ false
        → All (λ e. cost.above e.sc d.sc ≡ false) ds
        → All (λ e. cost.above e.sc c.sc ≡ false) ds
    below-All c d [] h a = tt
    below-All c d (e ∷ ds) h a = (o.neg_trans e.sc d.sc c.sc a.0 h, below-All c d ds h a.1)

    insert_scored-Sorted :
        (c : Scored cost) (ds : List (Scored cost)) → Sorted ds → Sorted (insert_scored cost c ds)
    unfolding insert_scored
    insert_scored-Sorted c [] s = (tt, tt)
    insert_scored-Sorted c (d ∷ ds) s = elim (Bool-cases (cost.above d.sc c.sc)) [
      | inl e ↦ rw e (
        insert_scored-All (λ x. cost.above x.sc d.sc ≡ false) c ds (o.asym d.sc c.sc e) s.0,
        insert_scored-Sorted c ds s.1,
      )
      | inr e ↦ rw e ((e, below-All c d ds e s.0), s)
    ]

    pub sort_scored-Sorted : (cs : List (Scored cost)) → Sorted (sort_scored cost cs)
    unfolding sort_scored
    sort_scored-Sorted [] = tt
    sort_scored-Sorted (c ∷ cs) =
        insert_scored-Sorted c (sort_scored cost cs) (sort_scored-Sorted cs)

  module _ (t : ComputeTask) where
    -- What is known of a node that can run the task.
    abbrev pub Feasible : List (PeerId × cost.Telemetry) → PeerId → cost.Score → Type 0
    Feasible ns id sc = (tel : cost.Telemetry) × Memᴰ (id, tel) ns × (cost.score t tel ≡ some sc)

    pub candidates-All :
        (P : Scored cost → Type 0) (exclude : List PeerId) (ns : List (PeerId × cost.Telemetry))
        → ((id : PeerId)
            → (tel : cost.Telemetry) → (sc : cost.Score) → Memᴰ (id, tel) ns
            → cost.score t tel ≡ some sc
            → excluded exclude id ≡ false
            → P (record { id = id; sc = sc }))
        → All P (candidates cost t exclude ns)
    unfolding candidates
    candidates-All P exclude [] f = tt
    candidates-All P exclude ((id, tel) ∷ ns) f =
        let rest = candidates-All P exclude ns (λ i u sc m. f i u sc (Memᴰ.tail m)) in
        elim (Bool-cases (excluded exclude id)) [
          | inl e ↦ rw e rest
          | inr e ↦ elim (Option-cases (cost.score t tel)) [
            | inl n ↦ rw (e, n) rest
            | inr (sc, n) ↦ rw (e, n) (f id tel sc (Memᴰ.head refl) n e, rest)
          ]
        ]

    pub All-candidates :
        (P : Scored cost → Type 0) (ns : List (PeerId × cost.Telemetry))
        → All P (candidates cost t [] ns)
        → (id : PeerId) (tel : cost.Telemetry) (sc : cost.Score) → Memᴰ (id, tel) ns
        → cost.score t tel ≡ some sc
        → P (record { id = id; sc = sc })
    unfolding candidates excluded
    All-candidates P [] a id tel sc m e = elim m [ ]
    All-candidates P ((j, u) ∷ ns) a id tel sc (Memᴰ.head q) e =
        let same : cost.score t u ≡ some sc = ap (λ n. cost.score t n.1) (sym q) ∙ e in
        let (p, rest) = (rw same at a) in
        subst (λ i. P (record { id = i; sc = sc })) (ap (λ n. n.0) (sym q)) p
    All-candidates P ((j, u) ∷ ns) a id tel sc (Memᴰ.tail m) e =
        elim (Option-cases (cost.score t u)) [
          | inl n ↦ All-candidates P ns (rw n at a) id tel sc m e
          | inr (x, n) ↦ let (p, rest) = (rw n at a) in All-candidates P ns rest id tel sc m e
        ]
