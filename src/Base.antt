-- ===== src/Base.antt =====
-- The names that the other modules share: the libraries' names passed on, and those of the
-- children.
mod Tests
mod Lists
pub mod Text
pub mod Sorting
pub mod Outcome
pub mod Returns
pub mod OrderedMap
pub mod Int
pub use Tests.*
pub use Lists.*
pub use Prim.Native.Nat.{ℕ, zero, suc, ◌+◌, ◌-◌, ◌*◌, ◌/◌, ◌%◌, ◌^◌, ◌≤◌, ◌<◌}
pub use mathlib.Core.Path.{◌≡◌, refl, sym, ap, ◌∙◌}
pub use mathlib.Core.Logic.{◌≢◌, ◌↔◌, ◌⊎◌, inl, inr}
pub use mathlib.Core.Bool.{Bool, true, false, not, ◌&&◌, ◌||◌}
pub use mathlib.Core.Option.{Option, none, some}
unfoldable pub use mathlib.Core.List.{◌++◌, map, reverse}
pub use mathlib.Core.List.{List, [], ◌∷◌, append-nil, append_assoc}
pub use native.Mathlib.Omega.{arith}
