-- ===== src/Base.antt =====
-- Names that the other modules share: the libraries', passed on, with the Boolean tests, the
-- lists and the signed integers that stand on the native numbers.
mod Tests
mod Lists
mod Text
pub mod Int
pub mod Dict
mod Membership
mod Paths
mod Distinct
mod Sort
pub mod Result
pub use Membership.*
unfoldable pub use Sort.*
pub use Tests.*
pub use Distinct.*
unfoldable pub use Lists.*
unfoldable pub use Text.*
unfoldable pub use Paths.*
pub use Prim.Native.Nat.{ℕ, zero, suc, ◌+◌, ◌-◌, ◌*◌, ◌/◌, ◌%◌, ◌^◌, ◌≤◌, ◌<◌, min}
pub use Prim.Native.String.{String}
pub use mathlib.Core.Path.{◌≡◌, refl, sym, ap, ◌∙◌, subst, subst⁻¹}
pub use mathlib.Core.Logic.{◌≢◌, ◌↔◌, ◌⊎◌, inl, inr}
pub use mathlib.Core.Bool.{Bool, true, false, not, ◌&&◌, ◌||◌}
pub use mathlib.Core.Option.{Option, none, some}
pub use mathlib.Core.List.{List, [], ◌∷◌, ◌++◌, map}
pub use native.Mathlib.Omega.{arith}
pub use text.Mathlib.Text.{◌==◌ as str_eq}
pub use text.Mathlib.TextEquality.{eq_iff}
pub use text.Mathlib.TextPositions.{eq_refl}
