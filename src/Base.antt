-- ===== src/Base.antt =====
-- The names that the other modules share: the libraries', passed on, the Boolean tests of the
-- code's conditions, machine words and memory.
mod Tests
mod Words
mod Buffers
mod Lists
mod Results
pub mod Bits
pub mod Grid
pub use Tests.*
pub use Lists.*
pub use Results.*
unfoldable pub use Words.*
unfoldable pub use Buffers.*
pub use Prim.Native.Nat.{ℕ, zero, suc, ◌+◌, ◌-◌, ◌*◌, ◌/◌, ◌%◌, ◌^◌, ◌≤◌, ◌<◌, bit_and, bit_or}
pub use mathlib.Core.Path.{◌≡◌, refl, sym, ◌∙◌, ap, ap₂, fun_ext}
pub use mathlib.Core.Logic.{◌≢◌, ◌↔◌, ◌⊎◌, inl, inr}
pub use mathlib.Core.Bool.{Bool, true, false, not, ◌&&◌, ◌||◌}
pub use mathlib.Core.Option.{Option, none, some}
pub use mathlib.Core.List.{List, [], ◌∷◌, ◌++◌}
pub use native.Mathlib.Omega.{arith}
