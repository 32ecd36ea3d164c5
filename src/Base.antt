-- ===== src/Base.antt =====
-- Names that every component shares: the libraries' own, passed on, and those of the children.
mod Tests
mod Lists
mod Members
mod Outcome
pub mod Int
pub mod Digits
pub mod Distinct
pub mod Double
pub mod Order
pub mod Text
pub mod Search
pub mod Sort
pub mod Map
pub use Tests.*
pub use Lists.*
pub use Members.*
pub use Outcome.*
pub use Prim.Native.Nat.{ℕ, zero, suc, ◌+◌, ◌-◌, ◌*◌, ◌/◌, ◌%◌, ◌^◌, ◌≤◌, ◌<◌, min, max}
pub use Prim.Native.Nat.{compare, Ordering}
pub use mathlib.Core.Path.{◌≡◌, refl, sym, ap, ◌∙◌, subst}
pub use mathlib.Core.Logic.{◌≢◌, ◌↔◌, ◌⊎◌, inl, inr, ite}
pub use mathlib.Core.Bool.{Bool, true, false, not, ◌&&◌, ◌||◌}
pub use mathlib.Core.Option.{Option, none, some}
pub use mathlib.Core.List.{List, [], ◌∷◌, ◌++◌, map, reverse}
pub use native.Mathlib.Omega.{arith}
