-- ===== src/Shared.antt =====
-- The names that every component shares: library names passed on, tests, lists, sorting, maps and integers.
mod Tests
mod Keys
mod Lists
mod Sorting
pub mod Text
mod Maps
mod Ordered
pub mod Int
pub mod Json
pub use Tests.*
pub use Keys.*
unfoldable pub use Lists.*
unfoldable pub use Sorting.*
unfoldable pub use Maps.*
unfoldable pub use Ordered.*
pub use Prim.Native.Nat.{ℕ, zero, suc, ◌+◌, ◌-◌, ◌*◌, ◌/◌, ◌%◌, ◌^◌, ◌≤◌, ◌<◌}
pub use Prim.Native.String.{String}
pub use mathlib.Core.Path.{◌≡◌, refl, sym, ap, subst, ◌∙◌}
pub use mathlib.Core.Logic.{◌≢◌, ◌↔◌, ◌⊎◌, inl, inr}
pub use mathlib.Core.Bool.{Bool, true, false, ◌&&◌, ◌||◌, not}
pub use mathlib.Core.Option.{Option, none, some}
pub use mathlib.Core.List.{List, [], ◌∷◌, ◌++◌, map}
pub use native.Mathlib.Omega.{arith}
pub use text.Mathlib.TextEquality.{eq_iff}
