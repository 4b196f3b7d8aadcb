-- ===== src/Datalab/Puzzles.antt =====
-- The puzzles on long integers of datalab-handout/bits.c.
mod Tests
pub mod Signed
pub mod Patterns
pub mod Positions
pub mod Shifts
pub mod Count
pub mod Mirror
pub mod Reverse
pub mod Palindrome
use introduction_to_computer.Common.{ℕ, ◌+◌, ◌-◌, ◌*◌, ◌%◌, ◌^◌, bit_and, bit_or, bit_xor}
use introduction_to_computer.Datalab.Words.{complement, add, shift_left, shift_right, is_zero}

unfoldable pub bit_match : ℕ → ℕ → ℕ
bit_match x y =
    let nand = complement (bit_and x y) in
    let first = complement (bit_and x nand) in
    let second = complement (bit_and y nand) in bit_and first second

unfoldable pub copy_lsb : ℕ → ℕ
copy_lsb x = shift_right (shift_left x 63) 63

unfoldable pub distinct_negation : ℕ → ℕ
distinct_negation x = is_zero (is_zero (bit_xor x (add (complement x) 1)))

unfoldable pub least_bit_pos : ℕ → ℕ
least_bit_pos x = bit_and x (add (complement x) 1)

-- 1 for a negative number: `!!((x >> 63) << 63)`
abbrev pub sign_of : ℕ → ℕ
sign_of x = is_zero (is_zero (shift_left (shift_right x 63) 63))

-- `~(~(sign << n) + sign)`
abbrev pub bias_of : (sign n : ℕ) → ℕ
bias_of sign n = complement (add (complement (shift_left sign n)) sign)

unfoldable pub divide_power2 : (x n : ℕ) → ℕ
divide_power2 x n = shift_right (add x (bias_of (sign_of x) n)) n

unfoldable pub conditional : (x y z : ℕ) → ℕ
conditional x y z =
    let truth = shift_right (shift_left (is_zero (is_zero x)) 63) 63 in
    bit_or (bit_and truth y) (bit_and (complement truth) z)

unfoldable pub is_less_or_equal : ℕ → ℕ → ℕ
is_less_or_equal x y =
    let diff = is_zero (shift_right (add y (add (complement x) 1)) 63) in
    let sign =
      bit_xor (is_zero (is_zero (shift_right x 63))) (is_zero (is_zero (shift_right y 63))) in
    bit_or (bit_and sign (shift_right x 63)) (bit_and (is_zero sign) diff)

unfoldable pub true_three_fourths : ℕ → ℕ
true_three_fourths x =
    let low = bit_and x 0x3 in
    let rest = shift_right (add (add (add low low) low) (bias_of (sign_of x) 2)) 2 in
    let quarter = shift_right x 2 in add (add (add quarter quarter) quarter) rest

-- The masks that bitCount and isPalindrome share.
abbrev pub ffff : ℕ
ffff = bit_or (shift_left 0xff 8) 0xff

abbrev pub mask6 : ℕ
mask6 = bit_or (shift_left ffff 16) ffff

abbrev pub mask5 : ℕ
mask5 = bit_xor (shift_left mask6 16) mask6

abbrev pub mask4 : ℕ
mask4 = bit_xor (shift_left mask5 8) mask5

abbrev pub mask3 : ℕ
mask3 = bit_xor (shift_left mask4 4) mask4

abbrev pub mask2 : ℕ
mask2 = bit_xor (shift_left mask3 2) mask3

abbrev pub mask1 : ℕ
mask1 = bit_xor (shift_left mask2 1) mask2

-- `(new & mask) + ((new >> n) & mask)`
unfoldable pub add_fields : (mask n new : ℕ) → ℕ
add_fields mask n new = add (bit_and new mask) (bit_and (shift_right new n) mask)

unfoldable pub bit_count : ℕ → ℕ
bit_count x = add_fields mask6 32 (
    add_fields mask5 16
      (add_fields mask4 8 (add_fields mask3 4 (add_fields mask2 2 (add_fields mask1 1 x)))))

-- `((rev & mask) << n) | (((rev & (mask << n)) >> n) & mask)`
unfoldable pub swap_fields : (mask n rev : ℕ) → ℕ
swap_fields mask n rev =
    bit_or (shift_left (bit_and rev mask) n)
      (bit_and (shift_right (bit_and rev (shift_left mask n)) n) mask)

unfoldable pub reversed : ℕ → ℕ
reversed x = swap_fields mask1 1 (
    swap_fields mask2 2
      (swap_fields mask3 4 (swap_fields mask4 8 (swap_fields mask5 16 (swap_fields mask6 32 x)))))

unfoldable pub is_palindrome : ℕ → ℕ
is_palindrome x = is_zero (bit_xor (reversed x) x)

-- `half += (!!(x >> (half + n))) << k`
unfoldable pub find_half : (n k x half : ℕ) → ℕ
find_half n k x half = add half (shift_left (is_zero (is_zero (shift_right x (add half n)))) k)

unfoldable pub integer_log2 : ℕ → ℕ
integer_log2 x = find_half 1 0 x (
    find_half 2 1 x (
      find_half 4 2 x
        (find_half 8 3 x (find_half 16 4 x (shift_left (is_zero (is_zero (shift_right x 32))) 5)))))
