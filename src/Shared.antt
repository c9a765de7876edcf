-- ===== src/Shared.antt =====
-- The names that all components share: the libraries' names passed on, Boolean tests, lists over the
-- native numbers, texts, and JavaScript's `Map` and `Set`.
mod Tests
mod Lists
mod Latest
mod Texts
mod Maps
pub use Tests.*
pub use Lists.*
pub use Latest.*
pub use Texts.*
pub use Maps.*
pub use Prim.Native.Nat.{ℕ, zero, suc, ◌+◌, ◌-◌, ◌*◌, ◌/◌, ◌%◌, ◌^◌, ◌≤◌, ◌<◌}
pub use mathlib.Core.Path.{◌≡◌, refl, sym, ap, ap₂, subst, ◌∙◌}
pub use mathlib.Core.Logic.{◌≢◌, ◌↔◌, ◌⊎◌, inl, inr}
pub use mathlib.Core.Bool.{Bool, true, false, not, ◌&&◌, ◌||◌}
pub use mathlib.Core.Option.{Option, none, some}
pub use mathlib.Core.List.{List, [], ◌∷◌, ◌++◌, map, reverse}
pub use native.Mathlib.Omega.{arith}
