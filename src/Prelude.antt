-- ===== src/Prelude.antt =====
-- The names that the components share: the libraries' names, Boolean tests, lists and arrays.
mod Tests
mod Lists
mod Arrays
mod Loops
mod Bits
mod Missing
pub use Tests.*
pub use Lists.*
pub use Arrays.*
unfoldable pub use Loops.*
pub use Bits.*
pub use Missing.*
pub use Prim.Native.Nat.{ℕ, zero, suc, ◌+◌, ◌-◌, ◌*◌, ◌/◌, ◌%◌, ◌^◌, ◌≤◌, ◌<◌, min, bit_and, bit_or}
pub use mathlib.Core.Path.{◌≡◌, refl, sym, ap, ◌∙◌, subst}
pub use mathlib.Core.Logic.{◌≢◌, ◌↔◌, ◌⊎◌, inl, inr}
pub use mathlib.Core.Bool.{Bool, true, false, not, ◌&&◌, ◌||◌}
pub use mathlib.Core.Option.{Option, none, some}
pub use mathlib.Core.List.{List, [], ◌∷◌, ◌++◌, map}
pub use native.Mathlib.Omega.{arith}
