-- ===== src/Datalab/Puzzles/Tests.antt =====
-- Runs of the puzzles of datalab-handout/bits.c at concrete words.
use introduction_to_computer.Common.{ℕ, ◌≡◌, ◌-◌, ◌^◌, refl, arith}
use introduction_to_computer.Datalab.Puzzles.{
  bit_match, copy_lsb, distinct_negation, conditional, least_bit_pos, integer_log2, divide_power2,
  is_less_or_equal, true_three_fourths, bit_count, is_palindrome, add_fields, swap_fields, reversed,
  find_half,
}
use introduction_to_computer.Datalab.Puzzles.Signed.{signed_tests}
use introduction_to_computer.Datalab.Puzzles.Patterns.{pattern_tests}
use introduction_to_computer.Datalab.Puzzles.Positions.{position_tests}
use introduction_to_computer.Datalab.Puzzles.Count.{bit_count-test}
use introduction_to_computer.Datalab.Puzzles.Palindrome.{is_palindrome-test}
use introduction_to_computer.Datalab.References.{
  test_bit_match, test_copy_lsb, test_distinct_negation, test_conditional, test_least_bit_pos,
  test_integer_log2, test_divide_power2, test_is_less_or_equal, test_true_three_fourths,
  test_bit_count, test_is_palindrome,
}

-- The examples of the comments in bits.c: -33, -9, -2 and -6 as words.
abbrev minus : ℕ → ℕ
minus n = 2 ^ 64 - n

examples : (divide_power2 (minus 33) 4 ≡ minus 2) × (true_three_fourths (minus 9) ≡ minus 6)
unfolding divide_power2 true_three_fourths
examples = (refl, refl)

palindrome_example :
    (is_palindrome 0x6F0F0123c480F0F6 ≡ 1) × (bit_count 7 ≡ 3) × (integer_log2 31 ≡ 4)
unfolding is_palindrome reversed swap_fields bit_count add_fields integer_log2 find_half
palindrome_example = (refl, refl, refl)

signed_tests_example :
    (divide_power2 (minus 33) 4 ≡ test_divide_power2 (minus 33) 4)
    × (is_less_or_equal (minus 33) 5 ≡ test_is_less_or_equal (minus 33) 5)
    × (true_three_fourths (minus 33) ≡ test_true_three_fourths (minus 33))
signed_tests_example = signed_tests (minus 33) 5 4 (omega arith) (omega arith) (omega arith)

pattern_tests_example :
    (bit_match 7 14 ≡ test_bit_match 7 14)
    × (copy_lsb 7 ≡ test_copy_lsb 7)
    × (distinct_negation 7 ≡ test_distinct_negation 7)
    × (conditional 7 14 5 ≡ test_conditional 7 14 5)
pattern_tests_example = pattern_tests 7 14 5 (omega arith) (omega arith) (omega arith)

position_tests_example :
    (least_bit_pos 96 ≡ test_least_bit_pos 96) × (integer_log2 96 ≡ test_integer_log2 96)
position_tests_example = position_tests 96 (omega arith) (omega arith)

bit_count-test_example : bit_count (minus 5) ≡ test_bit_count (minus 5)
bit_count-test_example = bit_count-test (minus 5) (omega arith)

is_palindrome-test_example :
    is_palindrome 0x6F0F0123c480F0F6 ≡ test_is_palindrome 0x6F0F0123c480F0F6
is_palindrome-test_example = is_palindrome-test 0x6F0F0123c480F0F6 (omega arith)
