-- ===== src/Base.antt =====
-- The names that every module shares: those of the libraries, passed on, and those of the children,
-- which give equality tests, lists, maps, texts, integers and the results of Go functions.
mod Equality
mod Lists
mod Effect
pub mod Int
pub mod StringSets
pub mod Dict
pub mod Str
pub mod Trim
pub mod Decimal
unfoldable pub use Equality.*
unfoldable pub use Lists.*
pub use Effect.*
pub use Prim.Native.Nat.{ℕ, zero, suc, ◌+◌, ◌-◌, ◌≤◌, ◌<◌}
pub use mathlib.Core.Path.{◌≡◌, refl, sym, ap, ◌∙◌, subst}
pub use mathlib.Core.Logic.{◌≢◌, ◌↔◌, ◌⊎◌, inl, inr}
pub use mathlib.Core.Bool.{Bool, true, false, not, ◌&&◌, ◌||◌}
pub use mathlib.Core.Option.{Option, none, some}
pub use mathlib.Core.List.{List, [], ◌∷◌, ◌++◌, map}
pub use native.Mathlib.Omega.{arith}
