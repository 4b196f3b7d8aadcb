-- ===== src/Datalab/Floats/Equal.antt =====
-- floatIsEqual of datalab-handout/bits.c against the equality of the values.
use introduction_to_computer.Common.{
  ℕ, zero, suc, ◌*◌, ◌/◌, ◌%◌, ◌^◌, ◌<◌, ◌≡◌, ◌≢◌, ◌∙◌, refl, sym, ap, Bool, true, false, not, ◌&&◌,
  ◌||◌, ◌==◌, if◌then◌else◌, bit_and, arith, bit_and-mask, Bool-cases, inl, inr, ==-apart, ==-same,
  ==-differ,
}
use introduction_to_computer.Datalab.Floats.{is_nan, float_is_equal}
use introduction_to_computer.Datalab.Floats.Value.{Float, nan, infinite, finite, decode}
use introduction_to_computer.Datalab.Floats.Order.{units_of, units_of_injective}

abbrev pub same_sign : Bool → Bool → Bool
same_sign true b = b
same_sign false b = not b

-- Nothing equals a value that is not a number, and the two zeros are equal.
abbrev pub same_value : Float → Float → Bool
same_value nan y = false
same_value (infinite s) nan = false
same_value (infinite s) (infinite t) = same_sign s t
same_value (infinite s) (finite t v) = false
same_value (finite s u) nan = false
same_value (finite s u) (infinite t) = false
same_value (finite s u) (finite t v) = (u == v) && ((u == 0) || same_sign s t)

same_value-nan : (x : Float) → same_value x nan ≡ false
same_value-nan nan = refl
same_value-nan (infinite s) = refl
same_value-nan (finite s u) = refl

-- The test for a value that is not a number, on the fields.
is_nan-fields : (uf : ℕ) → is_nan uf ≡ ((uf / 2 ^ 23 % 256 == 255) && not (uf % 2 ^ 23 == 0))
is_nan-fields uf =
    let exp : bit_and (uf / 2 ^ 23) 0xff ≡ uf / 2 ^ 23 % 256 = bit_and-mask 8 (uf / 2 ^ 23) in
    let frac : bit_and uf 0x7fffff ≡ uf % 2 ^ 23 = bit_and-mask 23 uf in rw (exp, frac)

decode-nan : (uf : ℕ) → is_nan uf ≡ true → decode uf ≡ nan
decode-nan uf h =
    let both = sym (is_nan-fields uf) ∙ h in
    let top : (uf / 2 ^ 23 % 256 == 255) ≡ true = ground (arith, both) in
    let some_bits : (uf % 2 ^ 23 == 0) ≡ false = ground (arith, both) in rw (top, some_bits)

-- The other words: the word without its sign is `w`.
data Number (uf : ℕ) : Type 0 where
  top : uf % 2 ^ 31 ≡ 255 * 2 ^ 23 → decode uf ≡ infinite (uf / 2 ^ 31 == 1) → Number uf
  below :
      uf % 2 ^ 31 < 255 * 2 ^ 23
      → decode uf ≡ finite (uf / 2 ^ 31 == 1) (units_of (uf % 2 ^ 31))
      → Number uf

all_clear : (a b : Bool) → a ≡ true → (a && not b) ≡ false → b ≡ true
all_clear true true e h = refl
all_clear true false e h = sym h
all_clear false b e h = absurd (cc e)

number : (uf : ℕ) → is_nan uf ≡ false → Number uf
number uf h = elim (Bool-cases (uf / 2 ^ 23 % 256 == 255)) [
  | inl high ↦
      let both = sym (is_nan-fields uf) ∙ h in
      let f : (uf % 2 ^ 23 == 0) ≡ true =
        all_clear (uf / 2 ^ 23 % 256 == 255) (uf % 2 ^ 23 == 0) high both in
      let e0 = ==-same (uf / 2 ^ 23 % 256) 255 high in
      let f0 = ==-same (uf % 2 ^ 23) 0 f in top (omega (arith, e0, f0)) (rw (high, f))
  | inr low ↦
      let ne = ==-differ (uf / 2 ^ 23 % 256) 255 low in
      let e : uf % 2 ^ 31 / 2 ^ 23 ≡ uf / 2 ^ 23 % 256 = omega arith in
      let f : uf % 2 ^ 31 % 2 ^ 23 ≡ uf % 2 ^ 23 = omega arith in
      below (omega (arith, ne)) (rw (low, e, f))
]

-- The sign of a word that has a number below 2.
sign-same : (s t : ℕ) → s < 2 → t < 2 → same_sign (s == 1) (t == 1) ≡ (s == t)
sign-same zero zero ls lt = refl
sign-same zero (suc zero) ls lt = refl
sign-same (suc zero) zero ls lt = refl
sign-same (suc zero) (suc zero) ls lt = refl
sign-same (suc (suc s)) t ls lt = absurd (omega (arith, ls))
sign-same s (suc (suc t)) ls lt = absurd (omega (arith, lt))

-- Words that differ in the sign at most.
word-sign : (uf ug : ℕ) → uf % 2 ^ 31 ≡ ug % 2 ^ 31 → (uf == ug) ≡ (uf / 2 ^ 31 == ug / 2 ^ 31)
word-sign uf ug e = elim (Bool-cases (uf / 2 ^ 31 == ug / 2 ^ 31)) [
  | inl same ↦
      let s = ==-same (uf / 2 ^ 31) (ug / 2 ^ 31) same in
      let eq : uf ≡ ug = omega (arith, e, s) in
      let test : (uf == ug) ≡ true = ground (arith, eq) in test ∙ sym same
  | inr other ↦
      let s = ==-differ (uf / 2 ^ 31) (ug / 2 ^ 31) other in
      ==-apart uf ug (λ h. s (ap (λ n. n / 2 ^ 31) h)) ∙ sym other
]

equal_test : (p q : ℕ) → p ≡ q → (p == q) ≡ true
equal_test p q e = ground arith

module _ (uf ug : ℕ) (lf : uf < 2 ^ 32) (lg : ug < 2 ^ 32) where
  -- What is left of floatIsEqual when both words are numbers.
  abbrev words_equal : ℕ
  words_equal =
      if (uf * 2 % 2 ^ 32 == 0) && (ug * 2 % 2 ^ 32 == 0) then 1 else if uf == ug then 1 else 0

  abbrev values_equal : ℕ
  values_equal = if same_value (decode uf) (decode ug) then 1 else 0

  signs : same_sign (uf / 2 ^ 31 == 1) (ug / 2 ^ 31 == 1) ≡ (uf / 2 ^ 31 == ug / 2 ^ 31)
  signs = sign-same (uf / 2 ^ 31) (ug / 2 ^ 31) (omega (arith, lf)) (omega (arith, lg))

  not_both_zero : uf % 2 ^ 31 ≢ 0 → ((uf * 2 % 2 ^ 32 == 0) && (ug * 2 % 2 ^ 32 == 0)) ≡ false
  not_both_zero ne =
      let first = ==-apart (uf * 2 % 2 ^ 32) 0 (λ e. ne (omega (arith, e))) in rw first

  differ_in_value :
      uf % 2 ^ 31 ≢ ug % 2 ^ 31
      → same_value (decode uf) (decode ug) ≡ false
      → words_equal ≡ values_equal
  differ_in_value ne no_value =
      let words = ==-apart uf ug (λ e. ne (ap (λ n. n % 2 ^ 31) e)) in
      let zeros : ((uf * 2 % 2 ^ 32 == 0) && (ug * 2 % 2 ^ 32 == 0)) ≡ false =
        elim (Bool-cases (uf * 2 % 2 ^ 32 == 0)) [
          | inr z ↦ rw z
          | inl z ↦
              let e = ==-same (uf * 2 % 2 ^ 32) 0 z in
              rw z (==-apart (ug * 2 % 2 ^ 32) 0 (λ e'. ne (omega (arith, e, e'))))
        ] in
      rw (zeros, words, no_value)

  differ_in_sign :
      uf % 2 ^ 31 ≡ ug % 2 ^ 31
      → uf % 2 ^ 31 ≢ 0
      → same_value (decode uf) (decode ug) ≡ same_sign (uf / 2 ^ 31 == 1) (ug / 2 ^ 31 == 1)
      → words_equal ≡ values_equal
  differ_in_sign e ne value = rw (not_both_zero ne, word-sign uf ug e, value, signs)

  numbers_equal : Number uf → Number ug → words_equal ≡ values_equal
  numbers_equal (top e d) (top e' d') =
      differ_in_sign (e ∙ sym e') (λ z. omega (arith, e, z)) (rw (d, d'))
  numbers_equal (top e d) (below l d') = differ_in_value (λ h. omega (arith, e, l, h)) (rw (d, d'))
  numbers_equal (below l d) (top e d') = differ_in_value (λ h. omega (arith, e, l, h)) (rw (d, d'))
  numbers_equal (below l d) (below l' d') = elim (Bool-cases (uf % 2 ^ 31 == ug % 2 ^ 31)) [
    | inr other ↦
        let ne = ==-differ (uf % 2 ^ 31) (ug % 2 ^ 31) other in
        let units_differ =
          ==-apart (units_of (uf % 2 ^ 31)) (units_of (ug % 2 ^ 31))
            (λ h. ne (units_of_injective (uf % 2 ^ 31) (ug % 2 ^ 31) h)) in
        differ_in_value ne (rw (d, d', units_differ))
    | inl same ↦
        let e = ==-same (uf % 2 ^ 31) (ug % 2 ^ 31) same in
        let w = uf % 2 ^ 31 in
        let same_units : (units_of w == units_of (ug % 2 ^ 31)) ≡ true =
          equal_test (units_of w) (units_of (ug % 2 ^ 31)) (ap units_of e) in
        elim (Bool-cases (w == 0)) [
          | inl z ↦
              let zero_word = ==-same w 0 z in
              let first = equal_test (uf * 2 % 2 ^ 32) 0 (omega (arith, zero_word)) in
              let second = equal_test (ug * 2 % 2 ^ 32) 0 (omega (arith, zero_word, e)) in
              let zero_units = equal_test (units_of w) 0 (ap units_of zero_word) in
              rw (first, second, d, d', same_units, zero_units)
          | inr z ↦
              let nz = ==-differ w 0 z in
              let no_units = ==-apart (units_of w) 0 (λ h. nz (units_of_injective w 0 h)) in
              differ_in_sign e nz (rw (d, d', same_units, no_units))
        ]
  ]

-- `floatIsEqual` of any two words of 32 bits tells whether their values are equal: a value that is
-- not a number equals nothing, and the two zeros are equal.
pub float_is_equal_lem :
    (uf ug : ℕ)
    → uf < 2 ^ 32
    → ug < 2 ^ 32
    → float_is_equal uf ug ≡ (if same_value (decode uf) (decode ug) then 1 else 0)
unfolding float_is_equal
float_is_equal_lem uf ug lf lg = elim (Bool-cases (is_nan uf)) [
  | inl first ↦ rw (first, decode-nan uf first)
  | inr ok ↦ elim (Bool-cases (is_nan ug)) [
    | inl second ↦ rw (ok, second, decode-nan ug second, same_value-nan (decode uf))
    | inr fine ↦ rw (ok, fine) (numbers_equal uf ug lf lg (number uf ok) (number ug fine))
  ]
]
