-- ===== src/Common.antt =====
-- The names that every module shares: the libraries', passed on, Boolean tests on numbers and
-- texts, lists measured by native numbers, results that may be an error, and string-keyed maps.
mod Tests
mod Lists
mod Results
mod Decimal
pub mod Dict
pub use Tests.*
pub use Lists.*
pub use Results.*
unfoldable pub use Decimal.{decimal, read_digits}
pub use Decimal.{is_digit, read_digits-decimal, all-decimal, decimal-ne-nil}
pub use Prim.Native.Nat.{ℕ, zero, suc, ◌+◌, ◌-◌, ◌*◌, ◌/◌, ◌%◌, ◌≤◌, ◌<◌}
pub use Prim.Native.String.{String}
pub use mathlib.Core.Path.{◌≡◌, refl, sym, ap, subst, ◌∙◌}
pub use mathlib.Core.Logic.{◌≢◌, ◌↔◌, ◌⊎◌, inl, inr}
pub use mathlib.Core.Bool.{Bool, true, false, not, ◌&&◌, ◌||◌}
pub use mathlib.Core.Option.{Option, none, some}
pub use mathlib.Core.List.{List, [], ◌∷◌, ◌++◌, map}
pub use native.Mathlib.Omega.{arith}
pub use text.Mathlib.TextEquality.{eq_iff}
pub use text.Mathlib.TextPositions.{eq_refl}
