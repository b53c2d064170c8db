-- ===== src/Scheduler.antt =====
-- daemon/scheduler/scheduler.go: ranking, placement with a standby, and rerouting after a loss.
-- The cost model is an interface: what it knows of a node, its scores and `>` on them are
-- parameters. A map is the list of its entries, in the order in which a loop meets them. A task's
-- hexadecimal key is its id.
pub mod Rank
pub mod Best
pub mod Apart
pub mod Pipeline
pub mod Reroute
pub mod Steps
pub mod Loss
mod Tests
use cerberus.Base.{
  ℕ, zero, suc, ◌+◌, ◌%◌, Bool, true, false, not, ◌&&◌, ◌||◌, List, [], ◌∷◌, ◌++◌, map, Option,
  none, some, Result, ok, err, ltb, ◌==◌, length, if◌then◌else◌,
}
use cerberus.Base.Bytes.{bytes_eq}

abbrev pub PeerId : Type 0
PeerId = List ℕ

pub record Shard : Type 0 where
  pub kind : ℕ
  pub layer_lo : ℕ
  pub layer_hi : ℕ
  pub tp_rank : ℕ
  pub tp_world : ℕ

pub record ComputeTask : Type 0 where
  pub task_id : List ℕ
  pub component : List ℕ
  pub shard : Shard
  pub caps : List (List ℕ)
  pub deps : List (List ℕ × PeerId)
  pub result_cap : List ℕ

pub record Placement : Type 0 where
  pub shard : Shard
  pub node : PeerId
  pub caps : List (List ℕ)

pub record Plan : Type 0 where
  pub task_id : List ℕ
  pub placements : List Placement
  pub standbys : List Placement

pub data ScheduleError : Type 0 where
  no_feasible_node unknown_task no_feasible_node_after_loss : ScheduleError

-- `score` is `none` for a node that cannot run the task.
pub record CostModel : Type 1 where
  pub Telemetry : Type 0
  pub Score : Type 0
  pub above : Score → Score → Bool
  pub score : ComputeTask → Telemetry → Option Score

abbrev pub zero_shard : Shard
zero_shard = record { kind = 0; layer_lo = 0; layer_hi = 0; tp_rank = 0; tp_world = 0 }

-- A task with the id and the shard given, and every other field zero.
abbrev pub bare_task : List ℕ → Shard → ComputeTask
bare_task id shard = record {
  task_id = id;
  component = [];
  shard = shard;
  caps = [];
  deps = [];
  result_cap = [];
}

unfoldable pub excluded : List PeerId → PeerId → Bool
excluded [] id = false
excluded (x ∷ xs) id = bytes_eq x id || excluded xs id

module _ (cost : CostModel) where
  pub record Scored : Type 0 where
    pub id : PeerId
    pub sc : cost.Score

  pub record Scheduler : Type 0 where
    pub nodes : List (PeerId × cost.Telemetry)
    pub plans : List (List ℕ × Plan)

  unfoldable pub update_in :
      PeerId → cost.Telemetry → List (PeerId × cost.Telemetry) → List (PeerId × cost.Telemetry)
  update_in id t [] = (id, t) ∷ []
  update_in id t ((j, u) ∷ ns) =
      let rest = update_in id t ns in if bytes_eq j id then (j, t) ∷ ns else (j, u) ∷ rest

  unfoldable pub update_node : PeerId → cost.Telemetry → Scheduler → Scheduler
  unfolding update_in
  update_node id t s = record s { nodes = update_in id t s.nodes }

  abbrev add_scored : PeerId → Option cost.Score → List Scored → List Scored
  add_scored id none cands = cands
  add_scored id (some sc) cands = record { id = id; sc = sc } ∷ cands

  unfoldable pub candidates :
      ComputeTask → List PeerId → List (PeerId × cost.Telemetry) → List Scored
  unfolding excluded
  candidates t exclude [] = []
  candidates t exclude ((id, tel) ∷ ns) =
      let rest = candidates t exclude ns in
      if excluded exclude id then rest else add_scored id (cost.score t tel) rest

  unfoldable pub insert_scored : Scored → List Scored → List Scored
  insert_scored c [] = c ∷ []
  insert_scored c (d ∷ ds) =
      let rest = insert_scored c ds in if cost.above d.sc c.sc then d ∷ rest else c ∷ d ∷ ds

  unfoldable pub sort_scored : List Scored → List Scored
  unfolding insert_scored
  sort_scored [] = []
  sort_scored (c ∷ cs) = insert_scored c (sort_scored cs)

  unfoldable pub rank : ComputeTask → List PeerId → Scheduler → List PeerId
  unfolding candidates sort_scored
  rank t exclude s = map (λ c. c.id) (sort_scored (candidates t exclude s.nodes))

  unfoldable pub set_plan : List ℕ → Plan → List (List ℕ × Plan) → List (List ℕ × Plan)
  set_plan key plan [] = (key, plan) ∷ []
  set_plan key plan ((k, p) ∷ ps) =
      let rest = set_plan key plan ps in if bytes_eq k key then (k, plan) ∷ ps else (k, p) ∷ rest

  unfoldable pub find_plan : List ℕ → List (List ℕ × Plan) → Option Plan
  find_plan key [] = none
  find_plan key ((k, p) ∷ ps) = if bytes_eq k key then some p else find_plan key ps

  abbrev pub keep_plan : List ℕ → Plan → Scheduler → Result ScheduleError Plan × Scheduler
  unfolding set_plan
  keep_plan key plan s = (ok plan, record s { plans = set_plan key plan s.plans })

  -- One placement and, if a second node is ranked, one standby.
  abbrev pub pair_plan : List ℕ → Shard → List (List ℕ) → PeerId → List PeerId → Plan
  pair_plan id shard caps first rest = record {
    task_id = id;
    placements = record { shard = shard; node = first; caps = caps } ∷ [];
    standbys = elim rest [
      | [] ↦ []
      | second ∷ _ ↦ record { shard = shard; node = second; caps = caps } ∷ []
    ];
  }

  abbrev pub place_ranked :
      ComputeTask → List PeerId → Scheduler → Result ScheduleError Plan × Scheduler
  place_ranked t [] s = (err no_feasible_node, s)
  place_ranked t (first ∷ rest) s =
      keep_plan t.task_id (pair_plan t.task_id t.shard t.caps first rest) s

  unfoldable pub place : ComputeTask → Scheduler → Result ScheduleError Plan × Scheduler
  unfolding rank
  place t s = place_ranked t (rank t [] s) s

  -- `ranked[i]`
  abbrev pub ranked_at : List PeerId → ℕ → PeerId
  ranked_at [] i = []
  ranked_at (x ∷ xs) zero = x
  ranked_at (x ∷ xs) (suc i) = ranked_at xs i

  abbrev on_node : Shard → PeerId → Placement
  on_node shard node = record { shard = shard; node = node; caps = [] }

  unfoldable pub primaries : List PeerId → ℕ → List Shard → List Placement
  primaries ranked i [] = []
  primaries ranked i (sh ∷ shards) =
      on_node sh (ranked_at ranked (i % length ranked)) ∷ primaries ranked (i + 1) shards

  unfoldable pub backups : List PeerId → ℕ → List Shard → List Placement
  backups ranked i [] = []
  backups ranked i (sh ∷ shards) =
      on_node sh (ranked_at ranked ((i + 1) % length ranked)) ∷ backups ranked (i + 1) shards

  abbrev pub pipeline_ranked :
      List ℕ → List Shard → List PeerId → Scheduler → Result ScheduleError Plan × Scheduler
  unfolding primaries backups
  pipeline_ranked id shards [] s = (err no_feasible_node, s)
  pipeline_ranked id shards (first ∷ rest) s =
      keep_plan id
        (record {
          task_id = id;
          placements = primaries (first ∷ rest) 0 shards;
          standbys = if ltb 1 (length (first ∷ rest)) then backups (first ∷ rest) 0 shards else [];
        })
        s

  unfoldable pub place_pipeline :
      List ℕ → List Shard → Scheduler → Result ScheduleError Plan × Scheduler
  unfolding rank
  place_pipeline id shards s = pipeline_ranked id shards (rank (bare_task id zero_shard) [] s) s

  abbrev pub prev_shard : Plan → Shard
  prev_shard p = elim p.placements [ [] ↦ zero_shard | pl ∷ _ ↦ pl.shard ]

  -- The standby takes over, and the best other node becomes its standby.
  abbrev pub promoted : List ℕ → Placement → Placement → List PeerId → Plan
  promoted id first standby ranked = record {
    task_id = id;
    placements = standby ∷ [];
    standbys = elim ranked [ [] ↦ [] | next ∷ _ ↦ on_node first.shard next ∷ [] ];
  }

  abbrev pub replaced :
      List ℕ → Shard → List PeerId → Scheduler → Result ScheduleError Plan × Scheduler
  replaced id shard [] s = (err no_feasible_node_after_loss, s)
  replaced id shard (first ∷ rest) s = keep_plan id (pair_plan id shard [] first rest) s

  abbrev pub replace_all :
      List ℕ → PeerId → Plan → Scheduler → Result ScheduleError Plan × Scheduler
  unfolding rank
  replace_all id lost prev s =
      replaced id (prev_shard prev) (rank (bare_task id (prev_shard prev)) (lost ∷ []) s) s

  abbrev pub reroute_plan :
      List ℕ
      → PeerId
      → Plan
      → List Placement
      → List Placement
      → Scheduler
      → Result ScheduleError Plan × Scheduler
  unfolding rank
  reroute_plan id lost prev (first ∷ _) (standby ∷ _) s =
      if bytes_eq first.node lost
      then keep_plan id
          (promoted id first standby (rank (bare_task id first.shard) (lost ∷ standby.node ∷ []) s))
          s
      else replace_all id lost prev s
  reroute_plan id lost prev [] standbys s = replace_all id lost prev s
  reroute_plan id lost prev (first ∷ rest) [] s = replace_all id lost prev s

  abbrev pub reroute_found :
      List ℕ → PeerId → Option Plan → Scheduler → Result ScheduleError Plan × Scheduler
  reroute_found id lost none s = (err unknown_task, s)
  reroute_found id lost (some prev) s = reroute_plan id lost prev prev.placements prev.standbys s

  unfoldable pub reroute : List ℕ → PeerId → Scheduler → Result ScheduleError Plan × Scheduler
  unfolding find_plan reroute_plan
  reroute id lost s = reroute_found id lost (find_plan id s.plans) s

  unfoldable pub runs_on : PeerId → List Placement → Bool
  runs_on lost [] = false
  runs_on lost (p ∷ ps) = bytes_eq p.node lost || runs_on lost ps

  unfoldable pub affected : PeerId → List (List ℕ × Plan) → List (List ℕ)
  unfolding runs_on
  affected lost [] = []
  affected lost ((k, p) ∷ ps) =
      let rest = affected lost ps in if runs_on lost p.placements then k ∷ rest else rest

  abbrev add_plan : Result ScheduleError Plan → List Plan → List Plan
  add_plan (ok p) ps = p ∷ ps
  add_plan (err e) ps = ps

  unfoldable pub reroute_keys : PeerId → List (List ℕ) → Scheduler → List Plan × Scheduler
  unfolding reroute
  reroute_keys lost [] s = ([], s)
  reroute_keys lost (k ∷ ks) s =
      let (r, t) = reroute k lost s in let (ps, u) = reroute_keys lost ks t in (add_plan r ps, u)

  unfoldable pub reroute_node : PeerId → Scheduler → List Plan × Scheduler
  unfolding affected reroute_keys
  reroute_node lost s = reroute_keys lost (affected lost s.plans) s
