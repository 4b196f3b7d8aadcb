-- ===== src/Datalab/Puzzles/Signed.antt =====
-- The puzzles of datalab-handout/bits.c on signed numbers, against their references.
use introduction_to_computer.Common.{
  ℕ, ◌+◌, ◌-◌, ◌*◌, ◌/◌, ◌%◌, ◌^◌, ◌<◌, ◌≤◌, ◌≡◌, ◌≢◌, ◌∙◌, ◌⊎◌, inl, inr, refl, sym, ap, subst,
  Bool, true, false, ltb, leb, bit_and, bit_or, arith, bit_and-mask, pow-pos, bit_and-zero, pow-add,
  Bool-cases, lt→ltb, ltb→lt, le→leb, leb_none, ltb_none, ltb_or, div_unique,
}
use native.Mathlib.Nat.{
  pow-le-pow_right, div-add-mod', mod-lt, div-lt_iff_lt-mul, div-le_self, div-eq_of_lt,
}
use introduction_to_computer.Datalab.Words.{
  complement, add, shift_left, shift_right, is_zero, less_or_equal,
}
use introduction_to_computer.Datalab.Puzzles.{
  sign_of, bias_of, divide_power2, true_three_fourths, is_less_or_equal,
}
use introduction_to_computer.Datalab.References.{
  truth_of, test_is_less_or_equal, test_divide_power2, test_true_three_fourths,
}

-- The two halves of the words.
pub sign_cases :
    (x : ℕ) → (ltb x (2 ^ 63) ≡ true) × (x < 2 ^ 63) ⊎ (ltb x (2 ^ 63) ≡ false) × (2 ^ 63 ≤ x)
sign_cases x = elim (Bool-cases (ltb x (2 ^ 63))) [
  | inl l ↦ inl (l, ltb→lt x (2 ^ 63) l)
  | inr h ↦ inr (h, ground (arith, h))
]

sign_of-positive : (x : ℕ) → ltb x (2 ^ 63) ≡ true → sign_of x ≡ 0
sign_of-positive x l =
    let lt = ltb→lt x (2 ^ 63) l in let e : x / 2 ^ 63 ≡ 0 = omega (arith, lt) in rw (l, e)

sign_of-negative : (x : ℕ) → x < 2 ^ 64 → ltb x (2 ^ 63) ≡ false → sign_of x ≡ 1
sign_of-negative x lx h =
    let le : 2 ^ 63 ≤ x = ground (arith, h) in
    let e : x / 2 ^ 63 ≡ 1 = omega (arith, le, lx) in rw (h, e)

shift_right-positive : (x n : ℕ) → x < 2 ^ 63 → shift_right x n ≡ x / 2 ^ n
shift_right-positive x n l = rw (lt→ltb x (2 ^ 63) l)

-- All 64 bits are the sign.
sign_word-positive : (x : ℕ) → ltb x (2 ^ 63) ≡ true → shift_right x 63 ≡ 0
sign_word-positive x l =
    let lt = ltb→lt x (2 ^ 63) l in let e : x / 2 ^ 63 ≡ 0 = omega (arith, lt) in rw (l, e)

sign_word-negative : (x : ℕ) → x < 2 ^ 64 → ltb x (2 ^ 63) ≡ false → shift_right x 63 ≡ 2 ^ 64 - 1
sign_word-negative x lx h =
    let le : 2 ^ 63 ≤ x = ground (arith, h) in
    let e : x / 2 ^ 63 ≡ 1 = omega (arith, le, lx) in rw (h, e)

true_three_fourths-test : (x : ℕ) → x < 2 ^ 64 → true_three_fourths x ≡ test_true_three_fourths x
unfolding true_three_fourths test_true_three_fourths
true_three_fourths-test x lx = elim (sign_cases x) [
  | inl (l, lt) ↦
      let low = bit_and-mask 2 x in
      let s = sign_of-positive x l in
      let thrice : ((x % 4 + x % 4) % 2 ^ 64 + x % 4) % 2 ^ 64 ≡ x % 4 * 3 = omega arith in
      let whole : (x % 4 * 3 + 0) % 2 ^ 64 ≡ x % 4 * 3 = omega arith in
      let rest = shift_right-positive (x % 4 * 3) 2 (omega arith) in
      rw (low, s, thrice, whole, rest, l) (omega (arith, lt))
  | inr (h, le) ↦
      let low = bit_and-mask 2 x in
      let s = sign_of-negative x lx h in
      let thrice : ((x % 4 + x % 4) % 2 ^ 64 + x % 4) % 2 ^ 64 ≡ x % 4 * 3 = omega arith in
      let whole : (x % 4 * 3 + 3) % 2 ^ 64 ≡ x % 4 * 3 + 3 = omega arith in
      let rest = shift_right-positive (x % 4 * 3 + 3) 2 (omega arith) in
      rw (low, s, thrice, whole, rest, h) (omega (arith, le, lx))
]

positive_word : (z : ℕ) → z < 2 ^ 64 → is_zero (shift_right z 63) ≡ truth_of (ltb z (2 ^ 63))
positive_word z lz = elim (sign_cases z) [
  | inl (l, lt) ↦ rw (sign_word-positive z l, l) refl
  | inr (h, le) ↦ rw (sign_word-negative z lz h, h) refl
]

-- Numbers of one sign are in the order of their bits.
compare_words : (z a b : ℕ) → (z < 2 ^ 63 → a ≤ b) → (2 ^ 63 ≤ z → b < a) → ltb z (2 ^ 63) ≡ leb a b
compare_words z a b below above = elim (sign_cases z) [
  | inl (l, lt) ↦ rw (l, le→leb a b (below lt)) refl
  | inr (h, le) ↦ rw (h, leb_none a b (above le)) refl
]

one_sign :
    (x y : ℕ)
    → x < 2 ^ 64
    → y < 2 ^ 64
    → ((x < 2 ^ 63) × (y < 2 ^ 63) ⊎ (2 ^ 63 ≤ x) × (2 ^ 63 ≤ y))
    → is_zero (shift_right (add y (add (complement x) 1)) 63) ≡ truth_of (less_or_equal x y)
one_sign x y lx ly same =
    positive_word (add y (add (complement x) 1)) (omega arith)
    ∙ ap truth_of (
        compare_words (add y (add (complement x) 1)) ((x + 2 ^ 63) % 2 ^ 64) ((y + 2 ^ 63) % 2 ^ 64)
          (λ l. omega (arith, lx, ly, same, l)) (λ l. omega (arith, lx, ly, same, l)))

same_sign :
    (x y : ℕ)
    → x < 2 ^ 64
    → y < 2 ^ 64
    → ((x < 2 ^ 63) × (y < 2 ^ 63) ⊎ (2 ^ 63 ≤ x) × (2 ^ 63 ≤ y))
    → bit_or 0 (bit_and 1 (is_zero (shift_right (add y (add (complement x) 1)) 63)))
      ≡ truth_of (less_or_equal x y)
same_sign x y lx ly same =
    ap (λ (t : ℕ). bit_or 0 (bit_and 1 t)) (one_sign x y lx ly same) ∙ flag (less_or_equal x y)
  where
    flag : (b : Bool) → bit_or 0 (bit_and 1 (truth_of b)) ≡ truth_of b
    flag true = refl
    flag false = refl

is_less_or_equal-test :
    (x y : ℕ) → x < 2 ^ 64 → y < 2 ^ 64 → is_less_or_equal x y ≡ test_is_less_or_equal x y
unfolding is_less_or_equal test_is_less_or_equal
is_less_or_equal-test x y lx ly = elim (sign_cases x) [
  | inl (l, lt) ↦ elim (sign_cases y) [
    | inl (k, kt) ↦
        rw (sign_word-positive x l, sign_word-positive y k) (same_sign x y lx ly (inl (lt, kt)))
    | inr (k, ke) ↦
        let e =
          leb_none ((x + 2 ^ 63) % 2 ^ 64) ((y + 2 ^ 63) % 2 ^ 64) (omega (arith, lt, ke, ly)) in
        rw (sign_word-positive x l, sign_word-negative y ly k, e) (ap (bit_or 0) (bit_and-zero _))
  ]
  | inr (h, le) ↦ elim (sign_cases y) [
    | inl (k, kt) ↦
        let e =
          le→leb ((x + 2 ^ 63) % 2 ^ 64) ((y + 2 ^ 63) % 2 ^ 64) (omega (arith, le, lx, kt)) in
        rw (sign_word-negative x lx h, sign_word-positive y k, e)
          (ap (bit_or (2 ^ 0)) (bit_and-zero _))
    | inr (k, ke) ↦
        rw (sign_word-negative x lx h, sign_word-negative y ly k)
          (same_sign x y lx ly (inr (le, ke)))
  ]
]

-- The powers of two by which a number can be divided.
module _ (n : ℕ) (ln : n ≤ 62) where
  power_bounds : (1 ≤ 2 ^ n) × (2 ^ n ≤ 2 ^ 62)
  power_bounds = (pow-pos n, pow-le-pow_right (omega arith) ln)

  bias_of-negative : bias_of 1 n ≡ 2 ^ n - 1
  bias_of-negative = let (l, u) = power_bounds in omega (arith, l, u)

  bias_of-positive : bias_of 0 n ≡ 0
  bias_of-positive = omega arith

  power : shift_left 1 n ≡ 2 ^ n
  power = let (l, u) = power_bounds in omega (arith, l, u)

  -- Division of the number `2 ^ 64 - m`, rounded up, in the case where it is not 0.
  rounded_up :
      (m : ℕ)
      → m ≤ 2 ^ 63
      → 2 ^ n ≤ m
      → (m / 2 ^ n ≤ 2 ^ (64 - n))
        × (m / 2 ^ n ≢ 0)
        × ((2 ^ 64 - m + (2 ^ n - 1)) / 2 ^ n ≡ 2 ^ (64 - n) - m / 2 ^ n)
  rounded_up m lm le =
      let pos = pow-pos n in
      let part = div-add-mod' m (2 ^ n) in
      let below = mod-lt m pos in
      let whole : 2 ^ (64 - n) * 2 ^ n ≡ 2 ^ 64 =
        sym (pow-add (64 - n) n)
        ∙ ap (λ (k : ℕ). 2 ^ k) {x = 64 - n + n} {y = 64} (omega (arith, ln)) in
      let some_part : m / 2 ^ n ≢ 0 =
        λ none. omega (arith, le, part, below, ap (λ (q : ℕ). q * 2 ^ n) none) in
      let next : m / 2 ^ n < 2 ^ (64 - n) + 1 =
        (div-lt_iff_lt-mul pos).1 (omega (arith, whole, pos, lm)) in
      let in_range : m / 2 ^ n ≤ 2 ^ (64 - n) = omega (arith, next) in
      let left : 2 ^ (64 - n) ≡ 2 ^ (64 - n) - m / 2 ^ n + m / 2 ^ n = omega (arith, in_range) in
      let left_whole = ap (λ (q : ℕ). q * 2 ^ n) left in
      let parts : 2 ^ 64 - m + (2 ^ n - 1)
          ≡ (2 ^ (64 - n) - m / 2 ^ n) * 2 ^ n + (2 ^ n - 1 - m % 2 ^ n) =
        omega (arith, whole, part, below, left_whole, lm) in
      (
        in_range,
        some_part,
        ap (λ (k : ℕ). k / 2 ^ n) parts
            ∙ div_unique (2 ^ n) (2 ^ (64 - n) - m / 2 ^ n) (2 ^ n - 1 - m % 2 ^ n)
                (omega (arith, pos)),
      )

negative :
    (x n : ℕ)
    → x < 2 ^ 64
    → 2 ^ 63 ≤ x
    → n ≤ 62
    → shift_right (add x (2 ^ n - 1)) n ≡ (2 ^ 64 - (2 ^ 64 - x) / 2 ^ n % 2 ^ 64) % 2 ^ 64
negative x n lx le ln = elim (ltb_or (2 ^ 64 - x) (2 ^ n)) [
  | inl (_, below) ↦
      let (l, u) = power_bounds n ln in
      let sum : (x + (2 ^ n - 1)) % 2 ^ 64 ≡ 2 ^ n - 1 - (2 ^ 64 - x) =
        omega (arith, l, u, lx, below) in
      let none = div-eq_of_lt below in
      let none' : (2 ^ n - 1 - (2 ^ 64 - x)) / 2 ^ n ≡ 0 = div-eq_of_lt (omega (arith, l)) in
      rw (sum, none, lt→ltb (2 ^ n - 1 - (2 ^ 64 - x)) (2 ^ 63) (omega (arith, u)), none') refl
  | inr (_, above) ↦
      let (l, u) = power_bounds n ln in
      let sum : (x + (2 ^ n - 1)) % 2 ^ 64 ≡ x + (2 ^ n - 1) = omega (arith, l, u, lx, above) in
      let back : 2 ^ 64 - (2 ^ 64 - x) ≡ x = omega (arith, lx) in
      let facts = rounded_up n ln (2 ^ 64 - x) (omega (arith, le)) above in
      let quotient : (x + (2 ^ n - 1)) / 2 ^ n ≡ 2 ^ (64 - n) - (2 ^ 64 - x) / 2 ^ n =
        subst (λ (k : ℕ). (k + (2 ^ n - 1)) / 2 ^ n ≡ 2 ^ (64 - n) - (2 ^ 64 - x) / 2 ^ n) back
          facts.2 in
      let top : 2 ^ (64 - n) ≤ 2 ^ 64 =
        pow-le-pow_right (omega arith) {i = 64 - n} {j = 64} (omega arith) in
      rw (sum, ltb_none (x + (2 ^ n - 1)) (2 ^ 63) (omega (arith, le)), quotient)
        (omega (arith, facts.0, facts.1, top))
]

divide_power2-test : (x n : ℕ) → x < 2 ^ 64 → n ≤ 62 → divide_power2 x n ≡ test_divide_power2 x n
unfolding divide_power2 test_divide_power2
divide_power2-test x n lx ln = elim (sign_cases x) [
  | inl (l, lt) ↦
      let id : (x + 0) % 2 ^ 64 ≡ x = omega (arith, lx) in
      let one : x * 1 ≡ x = omega arith in
      rw (sign_of-positive x l, bias_of-positive n ln, power n ln, l, id, one, l)
        (omega (arith, div-le_self x (2 ^ n), lx))
  | inr (h, le) ↦
      let one : (2 ^ 64 - x) * 1 ≡ 2 ^ 64 - x = omega arith in
      rw (sign_of-negative x lx h, bias_of-negative n ln, power n ln, h, one)
        (negative x n lx le ln)
]

-- On all words x and y, dividePower2 for a shift of at most 62 is the division by a power of two that
-- rounds towards zero, isLessOrEqual is the comparison of signed numbers, and trueThreeFourths is
-- 3 / 4 of the number, taken from the exact product and rounded towards zero.
pub signed_tests :
    (x y n : ℕ)
    → x < 2 ^ 64
    → y < 2 ^ 64
    → n ≤ 62
    → (divide_power2 x n ≡ test_divide_power2 x n)
      × (is_less_or_equal x y ≡ test_is_less_or_equal x y)
      × (true_three_fourths x ≡ test_true_three_fourths x)
signed_tests x y n lx ly ln =
    (divide_power2-test x n lx ln, is_less_or_equal-test x y lx ly, true_three_fourths-test x lx)
