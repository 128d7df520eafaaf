-- ===== src/Prelude.antt =====
-- The names that the other modules share: those of the libraries, passed on, the tests on numbers,
-- lists over the native numbers, equality of keys, and results with state.
mod Tests
mod Lists
mod Equality
mod Methods
pub mod Keeps
pub use Tests.*
pub use Lists.*
pub use Equality.*
pub use Methods.*
pub use Prim.Native.Nat.{ℕ, zero, suc, ◌+◌, ◌-◌, ◌*◌, ◌/◌, ◌%◌, ◌^◌, ◌≤◌, ◌<◌, min, max}
pub use Prim.Native.String.{String, len, ◌++◌ as ◌+++◌}
pub use mathlib.Core.Path.{◌≡◌, refl, sym, ap, ◌∙◌}
pub use mathlib.Core.Logic.{◌≢◌, ◌↔◌, ◌⊎◌, inl, inr}
pub use text.Mathlib.TextEquality.{eq_iff}
pub use mathlib.Core.Bool.{Bool, true, false, not, ◌&&◌, ◌||◌}
pub use mathlib.Core.Option.{Option, none, some}
pub use mathlib.Core.List.{List, [], ◌∷◌, ◌++◌, map}
pub use native.Mathlib.Omega.{arith}
