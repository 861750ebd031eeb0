-- ===== src/Shared.antt =====
-- Names that the other modules share: the libraries' own, passed on, Boolean tests on numbers,
-- the selections that a database table answers, and the request monad.
mod Tests
mod Rows
mod Request
mod Numbers
mod Counts
mod Members
mod Texts
pub mod Dict
pub use Tests.*
pub use Rows.*
pub use Request.*
pub use Numbers.*
pub use Counts.*
pub use Members.*
unfoldable pub use Texts.{
  strip, lstrip, rstrip, before_last_dash, after_sub, lower, upper, without_dashes, colons_dashed,
  squeezed, before_at,
}
pub use Prim.Native.Nat.{ℕ, zero, suc, ◌+◌, ◌-◌, ◌*◌, ◌/◌, ◌%◌, ◌≤◌, ◌<◌, min, max}
pub use Prim.Native.String.{String}
pub use mathlib.Core.Path.{◌≡◌, refl, sym, ap, ap₂, subst, ◌∙◌, fun_ext}
pub use mathlib.Core.Logic.{◌≢◌, ◌↔◌, ◌⊎◌, inl, inr}
pub use mathlib.Core.Bool.{Bool, true, false, not, ◌&&◌, ◌||◌}
pub use mathlib.Core.Option.{Option, none, some}
pub use mathlib.Core.List.{List, [], ◌∷◌, ◌++◌, map}
pub use native.Mathlib.Omega.{arith}
pub use text.Mathlib.Text.{◌==◌ as str_eq}
pub use text.Mathlib.TextEquality.{eq_iff}
pub use text.Mathlib.TextPositions.{eq_refl}
