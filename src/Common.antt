-- ===== src/Common.antt =====
-- Names that all other modules share: those of the libraries, passed on, and those of the
-- children: Boolean tests on numbers (Tests), lists measured by native numbers (Lists), masks
-- (Bits), the bits of numbers (Bitwise), signed integers (Integers), C strings (Texts) and code on a heap of structs (Heap).
mod Tests
mod Lists
mod Bits
mod Bitwise
mod Heap
mod Texts
mod Integers
pub use Tests.*
pub use Lists.*
pub use Bits.*
pub use Bitwise.*
pub use Integers.*
unfoldable pub use Heap.*
unfoldable pub use Texts.*
pub use Prim.Native.Nat.{
  ℕ, zero, suc, ◌+◌, ◌-◌, ◌*◌, ◌/◌, ◌%◌, ◌^◌, ◌≤◌, ◌<◌, bit_and, bit_or, bit_xor, min, max, differ,
}
pub use mathlib.Core.Path.{◌≡◌, refl, sym, ap, subst, ◌∙◌}
pub use mathlib.Core.Logic.{◌≢◌, ◌↔◌, ◌⊎◌, inl, inr}
pub use mathlib.Core.Bool.{Bool, true, false, not, ◌&&◌, ◌||◌}
pub use mathlib.Core.Option.{Option, none, some}
pub use mathlib.Core.List.{List, [], ◌∷◌, ◌++◌, map, reverse, reverse_aux}
pub use mathlib.Core.List.{append_assoc, append-nil}
pub use native.Mathlib.Omega.{arith}
