-- ===== src/Base.antt =====
-- The names that the other modules share: those of the libraries, and those of the children.
pub mod Tests
pub mod Int
pub mod Eq
pub mod Table
pub mod Predicates
pub mod Keyed
pub mod Upsert
pub use Tests.*
pub use Int.*
pub use Eq.{◌===◌}
pub use Table.*
pub use Predicates.*
pub use Prim.Native.Nat.{ℕ, zero, suc, ◌+◌, ◌-◌, ◌*◌, ◌/◌, ◌%◌, ◌≤◌, ◌<◌}
pub use mathlib.Core.Path.{◌≡◌, refl, sym, subst, ap, ◌∙◌}
pub use mathlib.Core.Logic.{◌≢◌, ◌↔◌, ◌⊎◌, inl, inr}
pub use mathlib.Core.Bool.{Bool, true, false, not, ◌&&◌, ◌||◌}
pub use mathlib.Core.Option.{Option, none, some}
pub use mathlib.Core.List.{List, [], ◌∷◌, ◌++◌, map}
pub use native.Mathlib.Omega.{arith}
