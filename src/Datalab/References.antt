-- ===== src/Datalab/References.antt =====
-- The references that datalab-handout/tests.c compares the puzzles with. A loop is a recursion on
-- the rounds that are left.
use introduction_to_computer.Common.{
  ℕ, zero, suc, ◌+◌, ◌-◌, ◌%◌, ◌^◌, Bool, true, ◌&&◌, ◌==◌, if◌then◌else◌, bit_and, bit_or,
}
use introduction_to_computer.Datalab.Words.{add, shift_left, shift_right, less_or_equal, times_over}

abbrev pub truth_of : Bool → ℕ
truth_of b = if b then 1 else 0

unfoldable pub match_loop : (rounds i result x y : ℕ) → ℕ
match_loop zero i result x y = result
match_loop (suc rounds) i result x y =
    let mask = shift_left 1 i in
    let bit = truth_of (bit_and x mask == bit_and y mask) in
    match_loop rounds (i + 1) (bit_or result (shift_left bit i)) x y

unfoldable pub test_bit_match : ℕ → ℕ → ℕ
test_bit_match x y = match_loop 64 0 0 x y

unfoldable pub test_copy_lsb : ℕ → ℕ
test_copy_lsb x = if bit_and x 0x1 == 0 then 0 else 2 ^ 64 - 1

unfoldable pub test_distinct_negation : ℕ → ℕ
test_distinct_negation x = if x == (2 ^ 64 - x) % 2 ^ 64 then 0 else 1

-- `while (!(mask & x))`
unfoldable pub least_loop : (rounds mask x : ℕ) → ℕ
least_loop zero mask x = mask
least_loop (suc rounds) mask x =
    if bit_and mask x == 0 then least_loop rounds (shift_left mask 1) x else mask

unfoldable pub test_least_bit_pos : ℕ → ℕ
test_least_bit_pos x = if x == 0 then 0 else least_loop 64 1 x

unfoldable pub test_divide_power2 : (x n : ℕ) → ℕ
test_divide_power2 x n = times_over x 1 (shift_left 1 n)

unfoldable pub test_conditional : (x y z : ℕ) → ℕ
test_conditional x y z = if x == 0 then z else y

unfoldable pub test_is_less_or_equal : ℕ → ℕ → ℕ
test_is_less_or_equal x y = truth_of (less_or_equal x y)

unfoldable pub test_true_three_fourths : ℕ → ℕ
test_true_three_fourths x = times_over x 3 4

unfoldable pub count_loop : (rounds i result x : ℕ) → ℕ
count_loop zero i result x = result
count_loop (suc rounds) i result x =
    count_loop rounds (i + 1) (add result (bit_and (shift_right x i) 0x1)) x

unfoldable pub test_bit_count : ℕ → ℕ
test_bit_count x = count_loop 64 0 0 x

unfoldable pub palindrome_loop : (rounds i : ℕ) → (result : Bool) → (low high : ℕ) → ℕ
palindrome_loop zero i result low high = truth_of result
palindrome_loop (suc rounds) i result low high =
    let bit_high = bit_and (shift_right high i) 0x1 in
    let bit_low = bit_and (shift_right low (31 - i)) 0x1 in
    palindrome_loop rounds (i + 1) (result && (bit_high == bit_low)) low high

unfoldable pub test_is_palindrome : ℕ → ℕ
test_is_palindrome x =
    let mask : ℕ = 0xffffffff in
    palindrome_loop 32 0 true (bit_and x mask) (bit_and (shift_right x 32) mask)

-- The result counts down from `rounds - 1`.
unfoldable pub log_loop : (rounds x : ℕ) → ℕ
log_loop zero x = 2 ^ 64 - 1
log_loop (suc rounds) x = if bit_and x (shift_left 1 rounds) == 0 then log_loop rounds x else rounds

unfoldable pub test_integer_log2 : ℕ → ℕ
test_integer_log2 x = log_loop 64 x
