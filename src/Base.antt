-- ===== src/Base.antt =====
-- The names that all modules share: library names passed on, tests on numbers, lists measured by
-- native numbers, and the two results of a fallible Go function.
mod Tests
mod Lists
pub mod Bytes
pub mod Int
pub use Tests.*
pub use Lists.*
pub use Prim.Native.Nat.{ℕ, zero, suc, ◌+◌, ◌-◌, ◌*◌, ◌/◌, ◌%◌, ◌^◌, ◌≤◌, ◌<◌}
pub use Prim.Native.String.{String}
pub use mathlib.Core.Path.{◌≡◌, refl, sym, ap, ◌∙◌, subst}
pub use mathlib.Core.Logic.{◌≢◌, ◌↔◌, ◌⊎◌, inl, inr}
pub use mathlib.Core.Bool.{Bool, true, false, not, ◌&&◌, ◌||◌}
pub use mathlib.Core.Option.{Option, none, some}
pub use mathlib.Core.List.{List, [], ◌∷◌, ◌++◌, map}
pub use native.Mathlib.Omega.{arith}
unfoldable pub use text.Mathlib.Text.{◌==◌ as str_eq}
pub use text.Mathlib.TextEquality.{eq_iff as str_eq_iff}

-- Go's (value, error) pair: a value, or an error and no value.
pub data Result {ℓ} (E : Type 0) (A : Type ℓ) : Type ℓ where
  ok : A → Result E A
  err : E → Result E A

pub err_not_ok {ℓ} :
    {E : Type 0} {A : Type ℓ} {e : E} {a : A} → Path (Result E A) (err e) (ok a) → ⊥
err_not_ok h = cc

-- The modulus of uint64 arithmetic.
abbrev pub u64_mod : ℕ
u64_mod = 2 ^ 64
