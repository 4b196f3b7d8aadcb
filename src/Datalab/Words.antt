-- ===== src/Datalab/Words.antt =====
-- The operators of C on a `long` of 64 bits, as they are used in datalab-handout/bits.c. A `long` is
-- its bit pattern, a number below 2 ^ 64; sums and shifts to the left wrap around, and shifts to the
-- right copy the sign.
use introduction_to_computer.Common.{
  ℕ, ◌+◌, ◌-◌, ◌*◌, ◌/◌, ◌%◌, ◌^◌, Bool, ltb, leb, ◌==◌, if◌then◌else◌,
}

-- `~x`
abbrev pub complement : ℕ → ℕ
complement x = 2 ^ 64 - 1 - x

abbrev pub add : ℕ → ℕ → ℕ
add x y = (x + y) % 2 ^ 64

-- `x << n`
abbrev pub shift_left : (x n : ℕ) → ℕ
shift_left x n = x * 2 ^ n % 2 ^ 64

-- `x >> n`
abbrev pub shift_right : (x n : ℕ) → ℕ
shift_right x n = if ltb x (2 ^ 63) then x / 2 ^ n else x / 2 ^ n + (2 ^ 64 - 2 ^ (64 - n))

-- `!x`
abbrev pub is_zero : ℕ → ℕ
is_zero x = if x == 0 then 1 else 0

-- `x <= y`
abbrev pub less_or_equal : ℕ → ℕ → Bool
less_or_equal x y = leb ((x + 2 ^ 63) % 2 ^ 64) ((y + 2 ^ 63) % 2 ^ 64)

-- `x * m / d` for a positive `d`, with the product in full: it rounds towards zero.
abbrev pub times_over : (x m d : ℕ) → ℕ
times_over x m d =
    if ltb x (2 ^ 63) then x * m / d % 2 ^ 64 else (2 ^ 64 - (2 ^ 64 - x) * m / d % 2 ^ 64) % 2 ^ 64
