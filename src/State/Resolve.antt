-- ===== src/State/Resolve.antt =====
-- daemon/state/state.go: a recorded decision on a register with a conflict, as `Resolve` builds it.
pub mod Collapse
use cerberus.Base.{
  ℕ, Bool, true, false, List, [], ◌∷◌, Option, none, some, ltb, length, if◌then◌else◌,
}
use cerberus.Base.Bytes.{bytes_eq}
use cerberus.State.Clock.{Clock, merge_max, tick}
use cerberus.State.Register.{Dot, absorb}

unfoldable pub seen : List (List ℕ) → List ℕ → Bool
seen [] v = false
seen (x ∷ xs) v = if bytes_eq x v then true else seen xs v

-- The values that `known` does not hold, each once.
unfoldable pub new_values : List (List ℕ) → List Dot → List (List ℕ)
unfolding seen
new_values known [] = []
new_values known (d ∷ dots) =
    let same = new_values known dots in
    let more = new_values (d.value ∷ known) dots in
    if seen known d.value then same else d.value ∷ more

unfoldable pub conflicted : List Dot → Bool
unfolding new_values
conflicted dots = ltb 1 (length (new_values [] dots))

unfoldable pub join_all : Clock → List Dot → Clock
unfolding merge_max
join_all c [] = c
join_all c (d ∷ dots) = join_all (merge_max c d.clock) dots

-- The write that `Resolve` makes: its clock joins the document's with every candidate's, and ticks.
unfoldable pub resolution : Clock → List Dot → List ℕ → List ℕ → Dot
unfolding join_all tick
resolution doc dots resolver winning = record {
  actor = resolver;
  value = winning;
  clock = tick (join_all doc dots) resolver;
}

-- The document's clock and the register after `Resolve`, or `none` if there is no conflict.
unfoldable pub resolve : Clock → List Dot → List ℕ → List ℕ → Option (Clock × List Dot)
unfolding conflicted resolution absorb
resolve doc dots resolver winning =
    if conflicted dots
    then some (
      merge_max doc (resolution doc dots resolver winning).clock,
      absorb (resolution doc dots resolver winning) dots,
    )
    else none
