-- ===== src/Base.antt =====
-- Names that every component shares: the native numbers, lists and options, passed on, with the
-- Boolean tests of `Base.Tests`, the arrays of `Base.Arrays`, the bit laws of `Base.Bits` and the
-- machine words of `Base.Words`.
mod Tests
mod Arrays
pub mod Bits
pub mod Words
pub use Tests.*
unfoldable pub use Arrays.*
pub use Prim.Native.Nat.{ℕ, zero, suc, ◌+◌, ◌-◌, ◌*◌, ◌/◌, ◌%◌, ◌^◌, ◌≤◌, ◌<◌}
pub use mathlib.Core.Path.{◌≡◌, refl, sym, ap, ◌∙◌}
pub use mathlib.Core.Logic.{◌≢◌, ◌⊎◌, inl, inr}
pub use mathlib.Core.Bool.{Bool, true, false, not, ◌&&◌, ◌||◌}
pub use mathlib.Core.Option.{Option, none, some}
pub use mathlib.Core.List.{List, [], ◌∷◌, ◌++◌}
pub use native.Mathlib.Omega.{arith}
