-- ===== src/Prelude.antt =====
-- Names that every module shares: the libraries' names passed on, the Boolean tests, lists measured
-- by native numbers, results with the errors that the code throws, and facts about bits.
mod Tests
mod Lists
mod Slices
mod Strings
mod Below
pub mod Results
pub mod Bits
pub use Tests.*
pub use Lists.*
pub use Slices.*
pub use Strings.*
unfoldable pub use Below.{lt_wf}
unfoldable pub use native.Mathlib.Decide.{dec_lt}
pub use Prim.Native.Nat.{ℕ, zero, suc, ◌+◌, ◌-◌, ◌*◌, ◌/◌, ◌%◌, ◌^◌, ◌≤◌, ◌<◌, bit_and, bit_or, min}
pub use mathlib.Core.Path.{◌≡◌, refl, sym, ap, ap₂, ◌∙◌}
pub use mathlib.Core.Logic.{◌≢◌, ◌↔◌, ◌⊎◌, inl, inr, dite}
pub use mathlib.Core.Bool.{Bool, true, false, ◌&&◌, ◌||◌, not}
pub use mathlib.Core.Option.{Option, none, some}
pub use mathlib.Core.List.{List, [], ◌∷◌, ◌++◌, map, reverse, foldl, append-nil, append_assoc}
pub use native.Mathlib.Omega.{arith}
