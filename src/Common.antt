-- ===== src/Common.antt =====
-- Names that every module of the library uses: the libraries', passed on, and those of the
-- children. `Tests` has the Boolean tests, `Lists` Python's sequence operations, `Faults` the
-- exceptions, and `Bytes` fixed-width integers.
mod Tests
mod Lists
mod Faults
pub mod Bytes
pub use Tests.*
unfoldable pub use Lists.*
pub use Faults.*
pub use Prim.Native.Nat.{ℕ, min, zero, suc, ◌+◌, ◌-◌, ◌*◌, ◌/◌, ◌%◌, ◌^◌, ◌≤◌, ◌<◌}
pub use mathlib.Core.Path.{◌≡◌, refl, sym, ap, ◌∙◌}
pub use mathlib.Core.Logic.{◌≢◌, ◌↔◌, ◌⊎◌, inl, inr}
pub use mathlib.Core.Bool.{Bool, true, false, not, ◌&&◌, ◌||◌, true≢false}
pub use mathlib.Core.Option.{Option, none, some}
pub use mathlib.Core.List.{List, [], ◌∷◌, ◌++◌, map}
pub use native.Mathlib.Omega.{arith}
