-- ===== src/Base.antt =====
-- The vocabulary that the other modules share: the libraries' names passed on, Boolean tests,
-- lists over the native numbers, orders (`Ord`), stable sorting and ordered maps (`BTreeMap`).
mod Tests
mod Lists
pub mod Order
pub mod Fields
pub mod Sort
pub mod Dict
pub mod Distinct
pub mod Ascending
pub mod Dedup
pub mod Entries
pub mod Size
pub mod Text
pub mod Gather
pub mod Decimal
pub use Tests.*
pub use Lists.*
pub use Prim.Native.Nat.{ℕ, zero, suc, ◌+◌, ◌-◌, ◌*◌, ◌/◌, ◌%◌, ◌^◌, ◌≤◌, ◌<◌, min, max, Ordering}
pub use Prim.Native.Nat.{compare}
pub use mathlib.Core.Path.{◌≡◌, refl, sym, ap, ap₂, subst, ◌∙◌, fun_ext}
pub use mathlib.Core.Logic.{◌≢◌, ◌↔◌, ◌⊎◌, inl, inr}
pub use mathlib.Core.Bool.{Bool, true, false, not, ◌&&◌, ◌||◌}
pub use mathlib.Core.Option.{Option, none, some}
pub use mathlib.Core.List.{List, [], ◌∷◌, ◌++◌, map, append-nil, append_assoc}
pub use native.Mathlib.Omega.{arith}
