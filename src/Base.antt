-- ===== src/Base.antt =====
-- The names that the other modules share: the libraries', passed on, and those of the children:
-- tests on numbers and the conditional (Tests), lists measured by native numbers (Lists), text
-- (Text, Split), maps (Dict), names (Names), their order (Sort), signed integers (Int) and what is
-- used of float64 (Float).
pub mod Tests
pub mod Lists
pub mod Text
pub mod Split
pub mod Dict
pub mod Names
pub mod Sort
pub mod Int
pub mod Float
pub use Tests.*
pub use Lists.*
unfoldable pub use Text.{has_prefix, contains_bytes}
pub use Text.*
pub use Prim.Native.Nat.{ℕ, zero, suc, ◌+◌, ◌-◌, ◌*◌, ◌/◌, ◌%◌, ◌^◌, ◌≤◌, ◌<◌}
pub use Prim.Native.String.{String}
pub use mathlib.Core.Path.{◌≡◌, refl, sym, ap, ◌∙◌}
pub use mathlib.Core.Logic.{◌≢◌, ◌↔◌, ◌⊎◌, inl, inr}
pub use mathlib.Core.Bool.{Bool, true, false, not, ◌&&◌, ◌||◌}
pub use mathlib.Core.Option.{Option, none, some}
pub use mathlib.Core.List.{List, [], ◌∷◌, ◌++◌, map}
pub use native.Mathlib.Omega.{arith}
