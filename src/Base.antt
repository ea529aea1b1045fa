-- ===== src/Base.antt =====
-- The names that the other modules share: the libraries', passed on, and those of the children
-- (tests on numbers, signed integers, texts, their ASCII classes and searches, string-keyed maps,
-- results).
mod Tests
mod Lists
pub mod Int
pub mod Text
pub mod Ascii
pub mod Strings
pub mod Dict
mod Results
pub mod Errors
pub use Tests.*
pub use Lists.*
pub use Results.{Result, ok, err, or_err, Result-cases, ok_injective}
pub use Prim.Native.Nat.{ℕ, zero, suc, ◌+◌, ◌-◌, ◌*◌, ◌/◌, ◌%◌, ◌^◌, ◌≤◌, ◌<◌}
pub use mathlib.Core.Path.{◌≡◌, refl, sym, ap, ◌∙◌}
pub use mathlib.Core.Logic.{◌≢◌, ◌↔◌, ◌⊎◌, inl, inr}
pub use mathlib.Core.Bool.{Bool, true, false, not, ◌&&◌, ◌||◌}
pub use mathlib.Core.Option.{Option, none, some}
pub use mathlib.Core.List.{List, [], ◌∷◌, ◌++◌, map}
pub use native.Mathlib.Omega.{arith}
