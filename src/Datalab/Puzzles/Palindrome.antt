-- ===== src/Datalab/Puzzles/Palindrome.antt =====
-- isPalindrome of datalab-handout/bits.c against its reference, which compares the two halves of the
-- word bit by bit.
use introduction_to_computer.Common.{
  ℕ, zero, suc, ◌+◌, ◌-◌, ◌/◌, ◌^◌, ◌<◌, ◌≤◌, ◌≡◌, ◌≢◌, ◌∙◌, ◌⊎◌, inl, inr, refl, sym, ap, subst,
  Bool, true, false, ◌&&◌, ◌==◌, bit_and, bit_xor, arith, bit_and-mask, ==-apart, ==-same, bit,
  bit-injective, bit_xor-zero, bit_xor_self, bit_and-below_mask,
}
use native.Mathlib.Nat.{pow-le-pow_right}
use introduction_to_computer.Datalab.Words.{shift_right, is_zero}
use introduction_to_computer.Datalab.Puzzles.{reversed, is_palindrome}
use introduction_to_computer.Datalab.Puzzles.Shifts.{masked_shift, bit-shift_right, bit-mod}
use introduction_to_computer.Datalab.Puzzles.Mirror.{and_first, and_second}
use introduction_to_computer.Datalab.Puzzles.Reverse.{bit-reversed, reversed-below}
use introduction_to_computer.Datalab.References.{truth_of, palindrome_loop, test_is_palindrome}

-- The comparisons of the rounds from `i` on.
mirrored : (rounds i low high : ℕ) → Bool
mirrored zero i low high = true
mirrored (suc rounds) i low high =
    (bit i high == bit (31 - i) low) && mirrored rounds (i + 1) low high

one_bit : (x i : ℕ) → x < 2 ^ 64 → i < 64 → bit_and (shift_right x i) 1 ≡ bit i x
one_bit x i lx li =
    let pair : 2 ^ 1 ≤ 2 ^ (64 - i) =
      pow-le-pow_right (omega arith) {i = 1} {j = 64 - i} (omega (arith, li)) in
    masked_shift x i 1 lx (omega (arith, li)) (omega (arith, pair)) ∙ bit_and-mask 1 (x / 2 ^ i)

palindrome_loop-mirrored :
    (rounds i : ℕ) (result : Bool) (low high : ℕ)
    → rounds + i ≡ 32
    → low < 2 ^ 64
    → high < 2 ^ 64
    → palindrome_loop rounds i result low high ≡ truth_of (result && mirrored rounds i low high)
unfolding palindrome_loop mirrored
palindrome_loop-mirrored zero i result low high e ll lh = ap truth_of (none result)
  where
    none : (b : Bool) → b ≡ (b && true)
    none true = refl
    none false = refl
palindrome_loop-mirrored (suc rounds) i result low high e ll lh =
    rw (one_bit high i lh (omega (arith, e)), one_bit low (31 - i) ll (omega arith))
      (palindrome_loop-mirrored rounds (i + 1) (result && (bit i high == bit (31 - i) low)) low high
          (omega (arith, e)) ll lh
        ∙ ap truth_of
            (joined result (bit i high == bit (31 - i) low) (mirrored rounds (i + 1) low high)))
  where
    joined : (a b c : Bool) → ((a && b) && c) ≡ (a && (b && c))
    joined true b c = refl
    joined false b c = refl

mirrored-each :
    (rounds i low high j : ℕ)
    → mirrored rounds i low high ≡ true
    → i ≤ j
    → j < i + rounds
    → bit j high ≡ bit (31 - j) low
unfolding mirrored
mirrored-each zero i low high j e le lt = absurd (omega (arith, le, lt))
mirrored-each (suc rounds) i low high j e le lt = elim (at i j le) [
  | inl here ↦
      let same =
        ==-same (bit i high) (bit (31 - i) low)
          (and_first (bit i high == bit (31 - i) low) (mirrored rounds (i + 1) low high) e) in
      subst (λ (k : ℕ). bit k high ≡ bit (31 - k) low) here same
  | inr later ↦
      mirrored-each rounds (i + 1) low high j
        (and_second (bit i high == bit (31 - i) low) (mirrored rounds (i + 1) low high) e) later
        (omega (arith, lt))
]
  where
    at : (i j : ℕ) → i ≤ j → (i ≡ j) ⊎ (i + 1 ≤ j)
    at i j le = omega (arith, le)

mirrored-all :
    (rounds i low high : ℕ)
    → ((j : ℕ) → j < i + rounds → bit j high ≡ bit (31 - j) low)
    → mirrored rounds i low high ≡ true
unfolding mirrored
mirrored-all zero i low high f = refl
mirrored-all (suc rounds) i low high f =
    rw (same (bit i high) (bit (31 - i) low) (f i (omega arith)))
      (mirrored-all rounds (i + 1) low high (λ j lt. f j (omega (arith, lt))))
  where
    same : (a b : ℕ) → a ≡ b → (a == b) ≡ true
    same a b e = ground (arith, e)

-- A word is its mirror image when the halves mirror each other.
module _ (x : ℕ) (lx : x < 2 ^ 64) where
  bit_low : (j : ℕ) → j < 32 → bit j (bit_and x (2 ^ 32 - 1)) ≡ bit j x
  bit_low j lj = ap (bit j) (bit_and-mask 32 x) ∙ bit-mod j 32 x lj

  bit_high : (j : ℕ) → j < 32 → bit j (bit_and (shift_right x 32) (2 ^ 32 - 1)) ≡ bit (32 + j) x
  bit_high j lj =
      ap (bit j) (
        masked_shift x 32 (2 ^ 32 - 1) lx (omega arith) (omega arith)
        ∙ bit_and-mask 32 (x / 2 ^ 32))
      ∙ bit-mod j 32 (x / 2 ^ 32) lj
      ∙ bit-shift_right j 32 x

  halves_mirror : Bool
  halves_mirror = mirrored 32 0 (bit_and x (2 ^ 32 - 1)) (bit_and (shift_right x 32) (2 ^ 32 - 1))

  mirror-reversed : halves_mirror ≡ true → reversed x ≡ x
  unfolding halves_mirror
  mirror-reversed e =
      bit-injective 64 (reversed x) x (reversed-below x lx) lx
        (λ j lj. bit-reversed j x lj lx ∙ mirror_bit j lj)
    where
      half : (j : ℕ) → j < 64 → (j < 32) ⊎ (32 ≤ j)
      half j lj = omega arith

      upper : (j : ℕ) → j < 32 → bit (32 + j) x ≡ bit (31 - j) x
      upper j lj =
          sym (bit_high j lj)
          ∙ mirrored-each 32 0 _ _ j e (omega arith) (omega (arith, lj))
          ∙ bit_low (31 - j) (omega arith)

      mirror_bit : (j : ℕ) → j < 64 → bit (63 - j) x ≡ bit j x
      mirror_bit j lj = elim (half j lj) [
        | inl low ↦
            let e1 : 63 - j ≡ 32 + (31 - j) = omega (arith, low) in
            let e2 : 31 - (31 - j) ≡ j = omega (arith, low) in
            rw e1 (upper (31 - j) (omega arith)) ∙ ap (λ (k : ℕ). bit k x) e2
        | inr high ↦
            let e1 : 32 + (j - 32) ≡ j = omega (arith, high) in
            let e2 : 31 - (j - 32) ≡ 63 - j = omega (arith, high) in
            ap (λ (k : ℕ). bit k x) (sym e2)
            ∙ sym (upper (j - 32) (omega (arith, lj)))
            ∙ ap (λ (k : ℕ). bit k x) e1
      ]

  reversed-mirror : reversed x ≡ x → halves_mirror ≡ true
  unfolding halves_mirror
  reversed-mirror e = mirrored-all 32 0 _ _ (λ j lt.
      bit_high j (omega (arith, lt))
      ∙ ap (bit (32 + j)) (sym e)
      ∙ bit-reversed (32 + j) x (omega (arith, lt)) lx
      ∙ ap (λ (k : ℕ). bit k x) {x = 63 - (32 + j)} {y = 31 - j} (omega (arith, lt))
      ∙ sym (bit_low (31 - j) (omega arith)))

  -- The comparison of two words by their differing bits.
  compared :
      (a : ℕ) (b : Bool)
      → a < 2 ^ 64
      → (b ≡ true → a ≡ x)
      → (a ≡ x → b ≡ true)
      → is_zero (bit_xor a x) ≡ truth_of b
  compared a true la there back = rw (there refl, bit_xor_self 64 x lx) refl
  compared a false la there back =
      rw (==-apart (bit_xor a x) 0 (λ z. no_true (back (bit_xor-zero 64 a x la lx z)))) refl
    where
      no_true : false ≢ true
      no_true e = ground (arith, e)

-- On every word, isPalindrome gives 1 or 0 as the loop does that compares the bits of the two halves
-- from both ends.
pub is_palindrome-test : (x : ℕ) → x < 2 ^ 64 → is_palindrome x ≡ test_is_palindrome x
unfolding is_palindrome test_is_palindrome halves_mirror
is_palindrome-test x lx =
    compared x lx (reversed x) (halves_mirror x lx) (reversed-below x lx) (mirror-reversed x lx)
      (reversed-mirror x lx)
    ∙ sym (
        palindrome_loop-mirrored 32 0 true _ _ refl
          (bit_and-below_mask 64 x (2 ^ 32 - 1) (omega arith))
          (bit_and-below_mask 64 (shift_right x 32) (2 ^ 32 - 1) (omega arith)))
