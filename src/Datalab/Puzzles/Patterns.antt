-- ===== src/Datalab/Puzzles/Patterns.antt =====
-- The puzzles of datalab-handout/bits.c on patterns of bits, against their references.
use introduction_to_computer.Common.{
  ℕ, zero, suc, ◌+◌, ◌-◌, ◌*◌, ◌/◌, ◌%◌, ◌^◌, ◌<◌, ◌≤◌, ◌≡◌, ◌≢◌, ◌∙◌, ◌⊎◌, inl, inr, refl, sym, ap,
  Bool, true, false, ◌==◌, if◌then◌else◌, bit_and, bit_or, bit_xor, min, arith, bit_and-mask,
  pow-pos, Bool-cases, ==-apart, ==-same, ==-differ, bit, bit-suc, bit-below, bit-injective,
  bit-and, bit_and-below, bit-complement, bit_and-power, bit_and_comm, bit_and-zero, bit_xor-zero,
  bit_xor_self, bit_or_comm, bit_or-zero, bit_or-none, bit_or-add,
}
use native.Mathlib.Nat.{pow-suc, div-div-eq-div-mul, pow-le-pow_right}
use introduction_to_computer.Datalab.Words.{complement, shift_left, is_zero}
use introduction_to_computer.Datalab.Puzzles.{bit_match, copy_lsb, distinct_negation, conditional}
use introduction_to_computer.Datalab.Puzzles.Shifts.{power_next}
use introduction_to_computer.Datalab.References.{
  match_loop, truth_of, test_bit_match, test_copy_lsb, test_distinct_negation, test_conditional,
}

-- The number whose `k` bits say where two numbers have the same bit.
matching : (k a b : ℕ) → ℕ
matching zero a b = 0
matching (suc k) a b = truth_of (a % 2 == b % 2) + matching k (a / 2) (b / 2) * 2

truth_of-below : (b : Bool) → truth_of b < 2
truth_of-below true = omega arith
truth_of-below false = omega arith

matching-below : (k a b : ℕ) → matching k a b < 2 ^ k
unfolding matching
matching-below zero a b = omega arith
matching-below (suc k) a b =
    omega (arith, pow-suc 2 k, matching-below k (a / 2) (b / 2), truth_of-below (a % 2 == b % 2))

bit-matching : (k i a b : ℕ) → i < k → bit i (matching k a b) ≡ truth_of (bit i a == bit i b)
unfolding matching
bit-matching zero i a b l = absurd (omega (arith, l))
bit-matching (suc k) zero a b l =
    let ea : a / 2 ^ 0 ≡ a = omega arith in
    let eb : b / 2 ^ 0 ≡ b = omega arith in
    let e : (truth_of (a % 2 == b % 2) + matching k (a / 2) (b / 2) * 2) / 2 ^ 0
        ≡ truth_of (a % 2 == b % 2) + matching k (a / 2) (b / 2) * 2 =
      omega arith in
    rw (e, ea, eb) (omega (arith, truth_of-below (a % 2 == b % 2)))
bit-matching (suc k) (suc i) a b l =
    let half : (truth_of (a % 2 == b % 2) + matching k (a / 2) (b / 2) * 2) / 2
        ≡ matching k (a / 2) (b / 2) =
      omega (arith, truth_of-below (a % 2 == b % 2)) in
    rw
      (
        bit-suc i (truth_of (a % 2 == b % 2) + matching k (a / 2) (b / 2) * 2),
        half,
        bit-suc i a,
        bit-suc i b,
      )
      (bit-matching k i (a / 2) (b / 2) (omega (arith, l)))

==_refl : (a : ℕ) → (a == a) ≡ true
==_refl a = ground arith

-- One bit of two numbers, seen through its mask.
mask_test : (i x y : ℕ) → (bit_and x (2 ^ i) == bit_and y (2 ^ i)) ≡ (bit i x == bit i y)
mask_test i x y =
    rw (bit_and-power i x, bit_and-power i y)
      (scaled (bit i x) (bit i y) (bit-below i x) (bit-below i y))
  where
    scaled : (a b : ℕ) → a < 2 → b < 2 → (a * 2 ^ i == b * 2 ^ i) ≡ (a == b)
    scaled zero zero la lb = ==_refl (0 * 2 ^ i)
    scaled zero (suc zero) la lb =
        ==-apart (0 * 2 ^ i) (1 * 2 ^ i) (λ e. omega (arith, e, pow-pos i))
    scaled (suc zero) zero la lb =
        ==-apart (1 * 2 ^ i) (0 * 2 ^ i) (λ e. omega (arith, e, pow-pos i))
    scaled (suc zero) (suc zero) la lb = ==_refl (1 * 2 ^ i)
    scaled (suc (suc a)) b la lb = absurd (omega (arith, la))
    scaled a (suc (suc b)) la lb = absurd (omega (arith, lb))

shift_power : (t i : ℕ) → t < 2 → i < 64 → t * 2 ^ i % 2 ^ 64 ≡ t * 2 ^ i
shift_power t i lt li =
    let top : 2 ^ i ≤ 2 ^ 63 =
      pow-le-pow_right (omega arith) {i = i} {j = 63} (omega (arith, li)) in
    elim (two t lt) [ inl e ↦ rw e (omega (arith, top)) | inr e ↦ rw e (omega (arith, top)) ]
  where
    two : (t : ℕ) → t < 2 → (t ≡ 0) ⊎ (t ≡ 1)
    two t l = omega (arith, l)

halve : (x i : ℕ) → x / 2 ^ i / 2 ≡ x / 2 ^ (i + 1)
halve x i = div-div-eq-div-mul x (2 ^ i) 2 ∙ ap (λ (p : ℕ). x / p) (sym (power_next i))

next_below : (t r i : ℕ) → t < 2 → r < 2 ^ i → t * 2 ^ i + r < 2 ^ (i + 1)
next_below zero r i lt l = omega (arith, l, power_next i)
next_below (suc zero) r i lt l = omega (arith, l, power_next i)
next_below (suc (suc t)) r i lt l = absurd (omega (arith, lt))

next_sum : (t r m i : ℕ) → t * 2 ^ i + r + m * 2 ^ (i + 1) ≡ r + (t + m * 2) * 2 ^ i
next_sum t r m i = omega (arith, ap (λ (p : ℕ). m * p) (power_next i))

match_loop-matching :
    (k i r x y : ℕ)
    → k + i ≡ 64
    → r < 2 ^ i
    → match_loop k i r x y ≡ r + matching k (x / 2 ^ i) (y / 2 ^ i) * 2 ^ i
unfolding match_loop matching
match_loop-matching zero i r x y e l = omega arith
match_loop-matching (suc k) i r x y e l =
    let mask : shift_left 1 i ≡ 2 ^ i =
      shift_power 1 i (omega arith) (omega (arith, e)) ∙ omega arith in
    let t = truth_of (bit i x == bit i y) in
    let below = truth_of-below (bit i x == bit i y) in
    let joined : bit_or r (t * 2 ^ i % 2 ^ 64) ≡ t * 2 ^ i + r =
      ap (bit_or r) (shift_power t i below (omega (arith, e)))
      ∙ bit_or_comm r (t * 2 ^ i)
      ∙ bit_or-add i t r l in
    let ex : x / 2 ^ i / 2 ≡ x / 2 ^ (i + 1) = halve x i in
    let ey : y / 2 ^ i / 2 ≡ y / 2 ^ (i + 1) = halve y i in
    rw (mask, mask_test i x y, joined, ex, ey)
      (match_loop-matching k (i + 1) (t * 2 ^ i + r) x y (omega (arith, e))
          (next_below t r i below l)
        ∙ next_sum t r (matching k (x / 2 ^ (i + 1)) (y / 2 ^ (i + 1))) i)

bit-bit_match :
    (i x y : ℕ)
    → i < 64
    → x < 2 ^ 64
    → y < 2 ^ 64
    → bit i (bit_match x y) ≡ truth_of (bit i x == bit i y)
unfolding bit_match
bit-bit_match i x y li lx ly =
    let nand = bit_and-below 64 x y lx ly in
    let first = bit_and-below 64 x (complement (bit_and x y)) lx (omega arith) in
    let second = bit_and-below 64 y (complement (bit_and x y)) ly (omega arith) in
    rw
      (
        bit-and i (complement (bit_and x (complement (bit_and x y))))
            (complement (bit_and y (complement (bit_and x y)))),
        bit-complement 64 i (bit_and x (complement (bit_and x y))) first li,
        bit-complement 64 i (bit_and y (complement (bit_and x y))) second li,
        bit-and i x (complement (bit_and x y)),
        bit-and i y (complement (bit_and x y)),
        bit-complement 64 i (bit_and x y) nand li,
        bit-and i x y,
      )
      (table (bit i x) (bit i y) (bit-below i x) (bit-below i y))
  where
    table :
        (a b : ℕ)
        → a < 2
        → b < 2
        → min (1 - min a (1 - min a b)) (1 - min b (1 - min a b)) ≡ truth_of (a == b)
    table zero zero la lb = refl
    table zero (suc zero) la lb = refl
    table (suc zero) zero la lb = refl
    table (suc zero) (suc zero) la lb = refl
    table (suc (suc a)) b la lb = absurd (omega (arith, la))
    table a (suc (suc b)) la lb = absurd (omega (arith, lb))

bit_match-below : (x y : ℕ) → bit_match x y < 2 ^ 64
unfolding bit_match
bit_match-below x y =
    bit_and-below 64 (complement (bit_and x (complement (bit_and x y))))
      (complement (bit_and y (complement (bit_and x y)))) (omega arith) (omega arith)

bit_match-test : (x y : ℕ) → x < 2 ^ 64 → y < 2 ^ 64 → bit_match x y ≡ test_bit_match x y
unfolding test_bit_match
bit_match-test x y lx ly =
    bit-injective 64 (bit_match x y) (matching 64 x y) (bit_match-below x y) (matching-below 64 x y)
      (λ i lt. bit-bit_match i x y lt lx ly ∙ sym (bit-matching 64 i x y lt))
    ∙ sym (match_loop-matching 64 0 0 x y refl (omega arith) ∙ rw (whole x, whole y) (omega arith))
  where
    whole : (a : ℕ) → a / 2 ^ 0 ≡ a
    whole a = omega arith

distinct_negation-test : (x : ℕ) → x < 2 ^ 64 → distinct_negation x ≡ test_distinct_negation x
unfolding distinct_negation test_distinct_negation
distinct_negation-test x lx =
    let negation : (2 ^ 64 - 1 - x + 1) % 2 ^ 64 ≡ (2 ^ 64 - x) % 2 ^ 64 = omega (arith, lx) in
    rw negation (decide x ((2 ^ 64 - x) % 2 ^ 64) lx (omega arith))
  where
    decide :
        (a b : ℕ)
        → a < 2 ^ 64
        → b < 2 ^ 64
        → is_zero (is_zero (bit_xor a b)) ≡ (if a == b then 0 else 1)
    decide a b la lb = elim (Bool-cases (a == b)) [
      | inl e ↦ let same = ==-same a b e in rw (e, same, bit_xor_self 64 b lb) refl
      | inr d ↦
          let apart : bit_xor a b ≢ 0 = λ z. ==-differ a b d (bit_xor-zero 64 a b la lb z) in
          rw (d, ==-apart (bit_xor a b) 0 apart) refl
    ]

conditional-test :
    (x y z : ℕ) → y < 2 ^ 64 → z < 2 ^ 64 → conditional x y z ≡ test_conditional x y z
unfolding conditional test_conditional
conditional-test x y z ly lz = elim (Bool-cases (x == 0)) [
  | inl e ↦ rw e (
      rw (bit_and-zero y, bit_and_comm (2 ^ 64 - 1) z, bit_and-mask 64 z, bit_or-zero (z % 2 ^ 64))
        (omega (arith, lz)))
  | inr d ↦ rw d (
      rw (bit_and-zero z, bit_and_comm (2 ^ 64 - 1) y, bit_and-mask 64 y, bit_or-none (y % 2 ^ 64))
        (omega (arith, ly)))
]

copy_lsb-test : (x : ℕ) → copy_lsb x ≡ test_copy_lsb x
unfolding copy_lsb test_copy_lsb
copy_lsb-test x =
    let low = bit_and-mask 1 x in
    let parity : (x % 2 ≡ 0) ⊎ (x % 2 ≡ 1) = omega arith in
    elim parity [
      | inl e ↦ let s : x * 2 ^ 63 % 2 ^ 64 ≡ 0 = omega (arith, e) in rw (s, low, e)
      | inr o ↦ let s : x * 2 ^ 63 % 2 ^ 64 ≡ 2 ^ 63 = omega (arith, o) in rw (s, low, o)
    ]

-- On all words, bitMatch sets the bits that the loop of its reference finds equal, copyLSB repeats the
-- lowest bit as its reference does, distinctNegation tells whether x and -x are different words, and
-- conditional is the choice between y and z by whether x is 0.
pub pattern_tests :
    (x y z : ℕ)
    → x < 2 ^ 64
    → y < 2 ^ 64
    → z < 2 ^ 64
    → (bit_match x y ≡ test_bit_match x y)
      × (copy_lsb x ≡ test_copy_lsb x)
      × (distinct_negation x ≡ test_distinct_negation x)
      × (conditional x y z ≡ test_conditional x y z)
pattern_tests x y z lx ly lz = (
  bit_match-test x y lx ly,
  copy_lsb-test x,
  distinct_negation-test x lx,
  conditional-test x y z ly lz,
)
