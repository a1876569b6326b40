-- ===== src/Prelude.antt =====
-- Names that every component shares: the libraries', passed on, and those of the children.
-- `Classes` has equality as an instance, `Dict` Python's dict and set, `Bytes` byte strings,
-- `Bits` the laws of masks and shifts, `Int` signed integers.
mod Tests
mod Lists
mod Classes
mod Results
mod Texts
pub mod Int
pub mod Bits
pub mod Bytes
pub mod Dict
pub use Tests.{
  ltb, leb, if◌then◌else◌, Bool-cases, Option-cases, ltb→lt, lt→ltb, leb→le, ==_iff, tests,
}
pub use Lists.*
pub use Classes.*
pub use Results.*
unfoldable pub use Texts.*
pub use Prim.Native.Nat.{ℕ, zero, suc, ◌+◌, ◌-◌, ◌*◌, ◌/◌, ◌%◌, ◌^◌, ◌≤◌, ◌<◌, min}
pub use Prim.Native.String.{String}
pub use mathlib.Core.Path.{◌≡◌, refl, sym, ap, ◌∙◌}
pub use mathlib.Core.Logic.{◌≢◌, ◌↔◌, ◌⊎◌, inl, inr}
pub use mathlib.Core.Bool.{Bool, true, false, ◌&&◌, ◌||◌, not}
pub use mathlib.Core.Option.{Option, none, some}
pub use mathlib.Core.List.{List, [], ◌∷◌, ◌++◌, map}
pub use native.Mathlib.Omega.{arith}
