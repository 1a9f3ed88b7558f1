-- ===== src/Base.antt =====
-- The names that the other modules share.
mod Tests
mod Lists
mod Search
mod Text
mod Bits
mod Bytes
mod Records
mod Buffer
pub use Tests.*
pub use Lists.*
pub use Search.*
pub use Text.*
unfoldable pub use Bits.*
unfoldable pub use Bytes.*
unfoldable pub use Records.*
unfoldable pub use Buffer.*
pub use Prim.Native.Nat.{ℕ, zero, suc, ◌+◌, ◌-◌, ◌*◌, ◌/◌, ◌%◌, ◌^◌, ◌≤◌, ◌<◌, min}
pub use Prim.Native.Nat.{bit_and, bit_or, bit_xor}
pub use mathlib.Core.Path.{◌≡◌, refl, sym, ap, ap₂, subst, ◌∙◌}
pub use mathlib.Core.Logic.{◌≢◌, ◌↔◌, ◌⊎◌, inl, inr}
pub use mathlib.Core.Bool.{Bool, true, false, not, ◌&&◌, ◌||◌}
pub use mathlib.Core.Option.{Option, none, some}
pub use mathlib.Core.List.{List, [], ◌∷◌, ◌++◌, map}
pub use native.Mathlib.Omega.{arith}
