-- ===== src/Common.antt =====
-- The names that the other modules share: the libraries' names, passed on, Boolean tests on
-- numbers, lists with native indices, and byte memory. It models no code of its own.
mod Tests
mod Lists
mod Maps
mod Memory
mod Results
mod Bits
mod Integers
pub use Tests.*
pub use Lists.*
pub use Maps.{value_or, lookup-modify}
unfoldable pub use Maps.{lookup, modify}
pub use Memory.*
pub use Results.*
pub use Integers.*
pub use Bits.{bit_at-lt, bit_at-or, bit_at-and, bit_at-zero, bit_at-pow, bit_and-zero_iff}
unfoldable pub use Bits.{bit_at}
pub use Prim.Native.Nat.{
  ℕ, zero, suc, ◌+◌, ◌-◌, ◌*◌, ◌/◌, ◌%◌, ◌^◌, ◌≤◌, ◌<◌, min, max, bit_and, bit_or,
}
pub use mathlib.Core.Path.{◌≡◌, refl, sym, ap, ◌∙◌, subst, subst₂}
pub use mathlib.Core.Logic.{◌≢◌, ◌↔◌, ◌⊎◌, inl, inr}
pub use mathlib.Core.Bool.{Bool, true, false, not, ◌&&◌, ◌||◌}
pub use mathlib.Core.Option.{Option, none, some}
pub use mathlib.Core.List.{List, [], ◌∷◌, ◌++◌, map}
pub use native.Mathlib.Omega.{arith}
