-- ===== src/Prelude.antt =====
-- The names that the other modules share: the libraries', passed on, and those of the children.
-- `Tests` has Boolean tests, `Int` the signed numbers, `Comparison` three-way comparisons, `Text`
-- the strings of the program, `Returns` its (value, error) returns, `Dict` its maps, and `Sort` its
-- sorting.
mod Tests
mod Returns
pub mod Int
pub mod Comparison
pub mod Text
pub mod Dict
pub mod Sort
pub use Tests.*
pub use Returns.*
pub use Prim.Native.Nat.{ℕ, zero, suc, ◌+◌, ◌-◌, ◌*◌, ◌≤◌, ◌<◌, Ordering}
pub use mathlib.Core.Path.{◌≡◌, refl, sym, ap, subst, ◌∙◌}
pub use mathlib.Core.Logic.{◌≢◌, ◌↔◌, ◌⊎◌, inl, inr}
pub use mathlib.Core.Bool.{Bool, true, false, not, ◌&&◌, ◌||◌}
pub use mathlib.Core.Option.{Option, none, some}
pub use mathlib.Core.List.{List, [], ◌∷◌, ◌++◌, map}
pub use native.Mathlib.Omega.{arith}
