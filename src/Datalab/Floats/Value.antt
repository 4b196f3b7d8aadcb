-- ===== src/Datalab/Floats/Value.antt =====
-- The values that the bit patterns of datalab-handout/bits.c stand for, and their fields.
use introduction_to_computer.Common.{
  ℕ, ◌+◌, ◌-◌, ◌*◌, ◌/◌, ◌%◌, ◌^◌, ◌<◌, ◌≡◌, Bool, ◌==◌, if◌then◌else◌, arith, bit_or-add,
}
use introduction_to_computer.Datalab.Floats.{pack}

-- The number of units of 2 ^ -149.
pub data Float : Type 0 where
  nan : Float
  infinite : (negative : Bool) → Float
  finite : (negative : Bool) → (units : ℕ) → Float

abbrev pub units : (exp frac : ℕ) → ℕ
units exp frac = if exp == 0 then frac else (2 ^ 23 + frac) * 2 ^ (exp - 1)

abbrev pub value_of : (sign exp frac : ℕ) → Float
value_of sign exp frac =
    if exp == 255
    then (if frac == 0 then infinite (sign == 1) else nan)
    else finite (sign == 1) (units exp frac)

-- The value of a word.
abbrev pub decode : ℕ → Float
decode uf = value_of (uf / 2 ^ 31) (uf / 2 ^ 23 % 256) (uf % 2 ^ 23)

-- The word of three fields.
abbrev pub word_of : (sign exp frac : ℕ) → ℕ
word_of sign exp frac = sign * 2 ^ 31 + exp * 2 ^ 23 + frac

pub decode-word_of :
    (sign exp frac : ℕ)
    → exp < 256
    → frac < 2 ^ 23
    → decode (word_of sign exp frac) ≡ value_of sign exp frac
decode-word_of sign exp frac le lf =
    let s : word_of sign exp frac / 2 ^ 31 ≡ sign = omega arith in
    let e : word_of sign exp frac / 2 ^ 23 % 256 ≡ exp = omega arith in
    let f : word_of sign exp frac % 2 ^ 23 ≡ frac = omega arith in rw (s, e, f)

pub word_of-fields : (uf : ℕ) → word_of (uf / 2 ^ 31) (uf / 2 ^ 23 % 256) (uf % 2 ^ 23) ≡ uf
word_of-fields uf = omega arith

pub pack-word_of :
    (sign exp frac : ℕ)
    → exp < 256
    → frac < 2 ^ 23
    → pack (sign * 2 ^ 31) exp frac ≡ word_of sign exp frac
pack-word_of sign exp frac le lf =
    let shift : exp * 2 ^ 23 % 2 ^ 32 ≡ exp * 2 ^ 23 = omega arith in
    let high : sign * 2 ^ 31 + exp * 2 ^ 23 ≡ (sign * 256 + exp) * 2 ^ 23 = omega arith in
    rw (shift, bit_or-add 31 sign (exp * 2 ^ 23) (omega arith), high)
      (bit_or-add 23 (sign * 256 + exp) frac lf)
