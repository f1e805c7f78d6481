-- ===== src/Prelude.antt =====
-- The names that the other modules share: the libraries', passed on, and those of the children.
pub mod Tests
pub mod Order
pub mod Int
pub mod Lists
pub mod Texts
pub mod Quantifiers
pub mod Sets
pub mod Trim
pub mod Equal
pub use Tests.*
pub use Order.*
pub use Lists.*
unfoldable pub use Texts.*
pub use Quantifiers.*
unfoldable pub use Sets.*
unfoldable pub use Trim.*
unfoldable pub use Equal.*
pub use Int.*
pub use Prim.Native.Nat.{ℕ, zero, suc, ◌+◌, ◌-◌, ◌*◌, ◌/◌, ◌%◌, ◌≤◌, ◌<◌}
pub use mathlib.Core.Path.{◌≡◌, refl, sym, ap, ◌∙◌}
pub use mathlib.Core.Logic.{◌≢◌, ◌↔◌, ◌⊎◌, inl, inr}
pub use mathlib.Core.Bool.{Bool, true, false, not, ◌&&◌, ◌||◌}
pub use mathlib.Core.Option.{Option, none, some}
pub use mathlib.Core.List.{List, [], ◌∷◌, ◌++◌}
pub use native.Mathlib.Omega.{arith}
