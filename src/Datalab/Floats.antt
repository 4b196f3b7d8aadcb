-- ===== src/Datalab/Floats.antt =====
-- floatIsEqual and floatScale4 of datalab-handout/bits.c. An unsigned int is a number below 2 ^ 32,
-- and a shift is a product or a quotient of a power of two.

pub mod Equal
mod Order
pub mod Scale
mod Tests
pub mod Value
use introduction_to_computer.Common.{
  ℕ, ◌+◌, ◌-◌, ◌*◌, ◌/◌, ◌%◌, ◌^◌, Bool, true, false, not, ◌&&◌, ◌||◌, leb, ◌==◌, if◌then◌else◌,
  bit_and, bit_or,
}

-- `((uf >> 23) & 0xFF) == 0xFF && (uf & 0x007FFFFF) != 0`
abbrev pub is_nan : ℕ → Bool
is_nan uf = (bit_and (uf / 2 ^ 23) 0xff == 0xff) && not (bit_and uf 0x7fffff == 0)

unfoldable pub float_is_equal : ℕ → ℕ → ℕ
float_is_equal uf ug =
    if is_nan uf
    then 0
    else if is_nan ug
    then 0
    else if (uf * 2 % 2 ^ 32 == 0) && (ug * 2 % 2 ^ 32 == 0)
    then 1
    else if uf == ug
    then 1
    else 0

-- `sign | (exp << 23) | frac`
abbrev pub pack : (sign exp frac : ℕ) → ℕ
pack sign exp frac = bit_or (bit_or sign (exp * 2 ^ 23 % 2 ^ 32)) frac

-- The cases of a normalized and of a denormalized value.
unfoldable pub scale_normalized : (sign exp frac : ℕ) → ℕ
scale_normalized sign exp frac =
    let exp' = (exp + 2) % 2 ^ 32 in if leb 0xff exp' then pack sign 0xff 0 else pack sign exp' frac

unfoldable pub scale_denormalized : (sign exp frac : ℕ) → ℕ
scale_denormalized sign exp frac =
    if not (bit_and frac 0x400000 == 0)
    then pack sign ((exp + 2) % 2 ^ 32) (bit_and (frac * 2 % 2 ^ 32) 0x7fffff)
    else bit_or sign (frac * 4 % 2 ^ 32)

unfoldable pub float_scale4 : ℕ → ℕ
float_scale4 uf =
    let sign = bit_and uf 0x80000000 in
    let exp = bit_and (uf / 2 ^ 23) 0xff in
    let frac = bit_and uf 0x7fffff in
    if (exp == 0xff) || ((exp == 0) && (frac == 0))
    then uf
    else if not (exp == 0)
    then scale_normalized sign exp frac
    else scale_denormalized sign exp frac
