-- ===== src/Base.antt =====
-- Names that every module shares: the libraries', passed on, and those of the children: Boolean
-- tests on numbers, lists indexed by numbers, and the atomic accesses of one process among others.
mod Tests
mod Lists
mod Outcome
mod Atomic
pub mod Maps
pub use Tests.*
pub use Lists.*
pub use Outcome.*
pub use Atomic.{
  Interference, Words, alone, seen, load, store, fetch_modify, look, Exchanged,
  compare_exchange_lem, Waited, untouched, looked, Waited-length,
}
unfoldable pub use Atomic.{compare_exchange}
pub use Prim.Native.Nat.{ℕ, zero, suc, ◌+◌, ◌-◌, ◌*◌, ◌/◌, ◌%◌, ◌^◌, ◌≤◌, ◌<◌, min, max}
pub use mathlib.Core.Path.{◌≡◌, refl, sym, ap, subst, ◌∙◌}
pub use mathlib.Core.Logic.{◌≢◌, ◌↔◌, ◌⊎◌, inl, inr}
pub use mathlib.Core.Bool.{Bool, true, false, not, ◌&&◌, ◌||◌}
pub use mathlib.Core.Option.{Option, none, some}
pub use mathlib.Core.List.{List, [], ◌∷◌, ◌++◌, map}
pub use native.Mathlib.Omega.{arith}
