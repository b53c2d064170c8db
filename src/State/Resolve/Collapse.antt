-- ===== src/State/Resolve/Collapse.antt =====
-- daemon/state/state.go: a resolution and its candidates.
use cerberus.Base.{
  ◌≡◌, refl, ℕ, ◌+◌, ◌≤◌, ◌<◌, true, false, List, [], ◌∷◌, some, arith, All, u64_mod,
}
use cerberus.State.Clock.{Clock, get, tick, merge_max}
use cerberus.State.Clock.Order.{IsMap, get-merge_max, IsMap-merge_max, IsMap-set}
use cerberus.State.Register.{Dot, is_stale, kept, absorb}
use cerberus.State.Resolve.{conflicted, new_values, seen, join_all, resolution, resolve}
use cerberus.State.Clock.Ahead.{Counts, not_after, not_same, superseded, tick_ahead, tick_above}

-- The clock of every candidate is a map whose counters are at least 1.
abbrev pub Candidates : List Dot → Type 0
Candidates dots = All (λ e. IsMap e.clock × Counts e.clock) dots

join_all-IsMap : (c : Clock) (dots : List Dot) → IsMap c → IsMap (join_all c dots)
unfolding join_all
join_all-IsMap c [] m = m
join_all-IsMap c (d ∷ dots) m =
    join_all-IsMap (merge_max c d.clock) dots (IsMap-merge_max c d.clock m)

join_all_above :
    (c : Clock) (dots : List Dot)
    → Candidates dots
    → (a : List ℕ) → get c a ≤ get (join_all c dots) a
unfolding join_all
join_all_above c [] w a = omega arith
join_all_above c (d ∷ dots) w a =
    ground (arith, get-merge_max c d.clock w.0.0 a, join_all_above (merge_max c d.clock) dots w.1 a)

-- Every candidate lies below the join.
join_all-All :
    (c : Clock) (dots : List Dot)
    → Candidates dots
    → All (λ e. (a : List ℕ) → get e.clock a ≤ get (join_all c dots) a) dots
unfolding join_all
join_all-All c [] w = tt
join_all-All c (d ∷ dots) w = (
  (λ a.
      ground
        (arith, get-merge_max c d.clock w.0.0 a, join_all_above (merge_max c d.clock) dots w.1 a)),
  join_all-All (merge_max c d.clock) dots w.1,
)

-- The resolver's counter is ahead of a candidate's, and no counter is behind.
abbrev Above : Dot → Dot → Type 0
Above d e =
    (IsMap e.clock × Counts e.clock)
    × (get e.clock d.actor < get d.clock d.actor)
    × ((a : List ℕ) → get e.clock a ≤ get d.clock a)

module _ (d : Dot) (md : IsMap d.clock) where
  kept-Above : (dots : List Dot) → All (λ e. Above d e) dots → kept d dots ≡ []
  unfolding kept
  kept-Above [] w = refl
  kept-Above (e ∷ dots) (w, ws) =
      rw (superseded e.clock d.clock d.actor w.0.0 md w.1 w.0.1 w.2) (kept-Above dots ws)

  is_stale-Above : (dots : List Dot) → All (λ e. Above d e) dots → is_stale d dots ≡ false
  unfolding is_stale
  is_stale-Above [] w = refl
  is_stale-Above (e ∷ dots) (w, ws) =
      rw
        (
          not_after e.clock d.clock d.actor w.0.0 md w.1,
          not_same e.clock d.clock d.actor w.0.0 md w.1,
        )
        (is_stale-Above dots ws)

  absorb-Above : (dots : List Dot) → All (λ e. Above d e) dots → absorb d dots ≡ d ∷ []
  unfolding absorb
  absorb-Above dots w = rw (is_stale-Above dots w, kept-Above dots w) refl

resolution-Above :
    (d : Dot) (c : Clock) (dots : List Dot)
    → ((a : List ℕ) → get c a ≤ get d.clock a)
    → get c d.actor < get d.clock d.actor
    → Candidates dots
    → All (λ e. (a : List ℕ) → get e.clock a ≤ get c a) dots
    → All (λ e. Above d e) dots
resolution-Above d c [] above ahead w b = tt
resolution-Above d c (e ∷ dots) above ahead w b = (
  (w.0, omega (arith, b.0 d.actor, ahead), (λ a. omega (arith, b.0 a, above a))),
  resolution-Above d c dots above ahead w.1 b.1,
)

-- `Resolve` succeeds with the decision alone in the register, which is no conflict.
abbrev pub Resolved : Clock → List Dot → List ℕ → List ℕ → Type 0
Resolved doc dots resolver winning =
    (resolve doc dots resolver winning
      ≡ some (
        merge_max doc (resolution doc dots resolver winning).clock,
        resolution doc dots resolver winning ∷ [],
      ))
    × (conflicted (resolution doc dots resolver winning ∷ []) ≡ false)

-- Resolving a conflict supersedes every candidate, whatever the values: the register is left with
-- the decision alone, and the conflict is gone. The candidates' clocks are maps that count from 1,
-- as the clocks of writes are, and the resolver's counter has room.
pub resolve_collapses :
    (doc : Clock) (dots : List Dot) (resolver winning : List ℕ)
    → IsMap doc
    → Candidates dots
    → get (join_all doc dots) resolver + 1 < u64_mod
    → conflicted dots ≡ true
    → Resolved doc dots resolver winning
resolve_collapses doc dots resolver winning m w room open_conflict = (done, single)
  where
    joined : Clock
    joined = join_all doc dots

    collapsed :
        absorb (resolution doc dots resolver winning) dots
        ≡ resolution doc dots resolver winning ∷ []
    collapsed =
        unfold resolution in
        absorb-Above (resolution doc dots resolver winning)
          (unfold tick in IsMap-set joined resolver _ (join_all-IsMap doc dots m)) dots
          (resolution-Above (resolution doc dots resolver winning) joined dots
            (tick_above joined resolver room) (tick_ahead joined resolver room) w
            (join_all-All doc dots w))

    done :
        resolve doc dots resolver winning
        ≡ some (
          merge_max doc (resolution doc dots resolver winning).clock,
          resolution doc dots resolver winning ∷ [],
        )
    done = unfold resolve in rw (open_conflict, collapsed) refl

    single : conflicted (resolution doc dots resolver winning ∷ []) ≡ false
    single = unfold conflicted new_values seen in refl
