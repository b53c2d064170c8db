-- ===== src/State/Register.antt =====
-- daemon/state/state.go: one key of a document, the writes that no other write supersedes.
pub mod Antichain
pub mod Complete
use cerberus.Base.{
  ℕ, ◌+◌, Bool, true, false, not, ◌&&◌, ◌||◌, List, [], ◌∷◌, ◌++◌, Option, none, some, ltb, ◌==◌,
  length, if◌then◌else◌,
}
use cerberus.Base.Bytes.{bytes_eq, bytes_ltb}
use cerberus.State.Clock.{Clock, get, equal, happens_before}

pub record Dot : Type 0 where
  pub actor : List ℕ
  pub value : List ℕ
  pub clock : Clock

abbrev pub same_write : Dot → Dot → Bool
same_write d e = equal d.clock e.clock && bytes_eq d.actor e.actor && bytes_eq d.value e.value

-- A write that another one supersedes, or that is there already.
unfoldable pub is_stale : Dot → List Dot → Bool
unfolding happens_before equal
is_stale d [] = false
is_stale d (ex ∷ dots) = happens_before d.clock ex.clock || same_write d ex || is_stale d dots

unfoldable pub kept : Dot → List Dot → List Dot
unfolding happens_before
kept d [] = []
kept d (ex ∷ dots) =
    let rest = kept d dots in if happens_before ex.clock d.clock then rest else ex ∷ rest

unfoldable pub has_write : Dot → List Dot → Bool
unfolding equal
has_write d [] = false
has_write d (ex ∷ dots) =
    (bytes_eq ex.actor d.actor && bytes_eq ex.value d.value && equal ex.clock d.clock)
    || has_write d dots

abbrev pub before : Dot → Dot → Bool
before d e =
    if not (bytes_eq d.actor e.actor) then bytes_ltb d.actor e.actor else bytes_ltb d.value e.value

unfoldable pub insert_dot : Dot → List Dot → List Dot
insert_dot d [] = d ∷ []
insert_dot d (e ∷ dots) =
    let rest = insert_dot d dots in if before e d then e ∷ rest else d ∷ e ∷ dots

unfoldable pub sort_dots : List Dot → List Dot
unfolding insert_dot
sort_dots [] = []
sort_dots (d ∷ dots) = insert_dot d (sort_dots dots)

unfoldable pub absorb : Dot → List Dot → List Dot
unfolding is_stale kept has_write sort_dots
absorb d dots =
    let rest = kept d dots in
    if is_stale d dots
    then dots
    else sort_dots (if has_write d rest then rest else rest ++ (d ∷ []))
