-- ===== src/Prelude.antt =====
-- The names that every module of the library shares: the libraries', passed on, and those of the
-- children: Boolean tests, lists over the native numbers, and the integers that stand for
-- `int64_t` (include/smartquant/common/types.hpp).
mod Tests
mod Lists
pub mod Int
pub mod Eq
pub mod Double
pub mod Word
pub mod Bits
pub mod Fixed
pub mod Map
pub mod Text
pub mod Count
pub use Tests.*
pub use Lists.*
pub use Prim.Native.Nat.{ℕ, zero, suc, ◌+◌, ◌-◌, ◌*◌, ◌/◌, ◌%◌, ◌^◌, ◌≤◌, ◌<◌, min, max}
pub use mathlib.Core.Path.{◌≡◌, refl, sym, ap, ap₂, subst, ◌∙◌}
pub use mathlib.Core.Logic.{◌≢◌, ◌↔◌, ◌⊎◌, inl, inr}
pub use mathlib.Core.Bool.{Bool, true, false, not, ◌&&◌, ◌||◌}
pub use mathlib.Core.Option.{Option, none, some}
pub use mathlib.Core.List.{List, [], ◌∷◌, ◌++◌, map}
pub use native.Mathlib.Omega.{arith}
