-- ===== src/State/Tests.antt =====
-- daemon/state/state.go: the theorems at the writes of two replicas.
use cerberus.Base.{ℕ, ◌+◌, ◌<◌, ◌≡◌, refl, true, List, [], ◌∷◌, arith, u64_mod}
use cerberus.Base.Bytes.{codes, bytes_eq, bytes_ltb}
use cerberus.State.Clock.{Clock, get}
use cerberus.State.Register.{Dot, absorb}
use cerberus.State.Resolve.{conflicted, join_all}
use cerberus.State.Resolve.Collapse.{Resolved, resolve_collapses}
use cerberus.State.Register.Antichain.{Frontier, absorb-Frontier}

abbrev alice : List ℕ
alice = codes "alice"

abbrev bob : List ℕ
bob = codes "bob"

abbrev alice_clock : Clock
alice_clock = (alice, 1) ∷ []

abbrev bob_clock : Clock
bob_clock = (bob, 1) ∷ []

abbrev later_clock : Clock
later_clock = (alice, 1) ∷ (bob, 2) ∷ []

abbrev write : List ℕ → List ℕ → Clock → Dot
write actor value clock = record { actor = actor; value = value; clock = clock }

abbrev first : Dot
first = write alice (codes "up") alice_clock

abbrev second : Dot
second = write bob (codes "down") bob_clock

abbrev third : Dot
third = write bob (codes "up") later_clock

-- Two concurrent writes stay side by side, in the order of their actors.
both_kept : absorb first (absorb second []) ≡ first ∷ second ∷ []
unfolding absorb bytes_eq bytes_ltb
both_kept = refl

-- A write that has seen both supersedes both.
both_superseded : absorb third (first ∷ second ∷ []) ≡ third ∷ []
unfolding absorb bytes_eq bytes_ltb
both_superseded = refl

stale_dropped : absorb first (third ∷ []) ≡ third ∷ []
unfolding absorb bytes_eq bytes_ltb
stale_dropped = refl

empty : Frontier []
empty = record { maps = λ d m. elim m [ ]; antichain = λ d e m n. elim m [ ] }

absorb-Frontier_example : Frontier (absorb first (absorb second []))
absorb-Frontier_example =
    absorb-Frontier first (absorb second []) (tt, tt) (absorb-Frontier second [] (tt, tt) empty)

-- The two writes disagree, and a decision leaves itself alone.
disagree : conflicted (first ∷ second ∷ []) ≡ true
unfolding conflicted bytes_eq
disagree = refl

carol_room : get (join_all later_clock (first ∷ second ∷ [])) (codes "carol") + 1 < u64_mod
unfolding join_all bytes_eq
carol_room = omega arith

resolve_collapses_example : Resolved later_clock (first ∷ second ∷ []) (codes "carol") (codes "up")
resolve_collapses_example =
    resolve_collapses later_clock (first ∷ second ∷ []) (codes "carol") (codes "up")
      ((unfold bytes_eq in refl, tt), (tt, tt))
      (((tt, tt), ((λ z. omega arith), tt)), (((tt, tt), ((λ z. omega arith), tt)), tt)) carol_room
      disagree
