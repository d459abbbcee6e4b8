-- ===== src/Prelude.antt =====
-- The names that the modules share: the libraries', passed on, and those of the children below.
-- A text or a buffer of the program is its list of bytes.
mod Tests
mod Lists
mod Slices
mod Ascii
mod Decimal
mod Texts
mod Lines
pub mod Result
pub mod Exec
pub mod Integers
pub use Tests.*
pub use Lists.*
pub use Slices.*
unfoldable pub use Ascii.*
unfoldable pub use Decimal.*
unfoldable pub use Texts.*
unfoldable pub use Lines.*
pub use Prim.Native.Nat.{ℕ, zero, suc, ◌+◌, ◌-◌, ◌*◌, ◌/◌, ◌%◌, ◌^◌, ◌≤◌, ◌<◌, min}
pub use mathlib.Core.Path.{◌≡◌, refl, sym, ap, subst, ◌∙◌}
pub use mathlib.Core.Logic.{◌≢◌, ◌↔◌, ◌⊎◌, inl, inr}
pub use mathlib.Core.Bool.{Bool, true, false, not, ◌&&◌, ◌||◌}
pub use mathlib.Core.Option.{Option, none, some, some-injective}
pub use mathlib.Core.List.{List, [], ◌∷◌, ◌++◌, append-nil, append_assoc}
pub use native.Mathlib.Omega.{arith}
