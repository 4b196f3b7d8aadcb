-- ===== src/Datalab/Puzzles/Reverse.antt =====
-- The word that isPalindrome of datalab-handout/bits.c compares with its argument: the exchanges as a
-- table of the 64 positions.
use introduction_to_computer.Common.{
  ℕ, zero, suc, ◌-◌, ◌^◌, ◌<◌, ◌≤◌, ◌≡◌, ◌∙◌, ◌⊎◌, inl, inr, refl, sym, ap, subst, Bool, true, ◌&&◌,
  ltb, ◌==◌, arith, ltb→lt, ==-same, bit, List, [], ◌∷◌,
}
use introduction_to_computer.Datalab.Puzzles.{
  mask1, mask2, mask3, mask4, mask5, mask6, swap_fields, reversed,
}
use introduction_to_computer.Datalab.Puzzles.Mirror.{
  flip, fits, partner_above, partner_below, and_first, and_second, swap_fields-below,
  bit-swap_fields,
}

all_below : (ℕ → Bool) → ℕ → Bool
all_below f zero = true
all_below f (suc n) = f n && all_below f n

all_below-each : (f : ℕ → Bool) (n j : ℕ) → all_below f n ≡ true → j < n → f j ≡ true
unfolding all_below
all_below-each f zero j e l = absurd (omega (arith, l))
all_below-each f (suc n) j e l = elim (last j n l) [
  | inl at ↦ rw at (and_first (f n) (all_below f n) e)
  | inr before ↦ all_below-each f n j (and_second (f n) (all_below f n) e) before
]
  where
    last : (j n : ℕ) → j < suc n → (j ≡ n) ⊎ (j < n)
    last j n l = omega (arith, l)

-- The six exchanges fit each position, and bring the position `63 - j` to the position `j`.
fits_from : List (ℕ × ℕ) → (goal j : ℕ) → Bool
unfolding fits flip
fits_from [] goal j = j == goal
fits_from ((mask, s) ∷ steps) goal j =
    (ltb j 64 && fits mask s j) && fits_from steps goal (flip mask s j)

swaps : List (ℕ × ℕ) → ℕ → ℕ
swaps [] x = x
swaps ((mask, s) ∷ steps) x = swap_fields mask s (swaps steps x)

-- The masks leave room for their shifts.
AreMasks : List (ℕ × ℕ) → Type 0
AreMasks [] = Unit {0}
AreMasks ((mask, s) ∷ steps) = (s ≤ 64) × (mask < 2 ^ (64 - s)) × AreMasks steps

swaps-below : (steps : List (ℕ × ℕ)) (x : ℕ) → AreMasks steps → x < 2 ^ 64 → swaps steps x < 2 ^ 64
unfolding swaps AreMasks
swaps-below [] x m l = l
swaps-below ((mask, s) ∷ steps) x (ls, lm, m) l = swap_fields-below mask s (swaps steps x) lm

bit-swaps :
    (steps : List (ℕ × ℕ)) (goal j x : ℕ)
    → AreMasks steps
    → x < 2 ^ 64
    → fits_from steps goal j ≡ true
    → bit j (swaps steps x) ≡ bit goal x
unfolding swaps AreMasks fits_from
bit-swaps [] goal j x m l e = ap (λ (i : ℕ). bit i x) (==-same j goal e)
bit-swaps ((mask, s) ∷ steps) goal j x (ls, lm, m) l e =
    let here = and_first (ltb j 64 && fits mask s j) (fits_from steps goal (flip mask s j)) e in
    let lj = ltb→lt j 64 (and_first (ltb j 64) (fits mask s j) here) in
    bit-swap_fields mask s j (swaps steps x) (swaps-below steps x m l) ls lm lj
      (and_second (ltb j 64) (fits mask s j) here)
    ∙ bit-swaps steps goal (flip mask s j) x m l
        (and_second (ltb j 64 && fits mask s j) (fits_from steps goal (flip mask s j)) e)

six : List (ℕ × ℕ)
six = (mask1, 1) ∷ (mask2, 2) ∷ (mask3, 4) ∷ (mask4, 8) ∷ (mask5, 16) ∷ (mask6, 32) ∷ []

table : all_below (λ j. fits_from six (63 - j) j) 64 ≡ true
unfolding all_below fits_from six fits flip partner_above partner_below
table = refl

six_masks : AreMasks six
unfolding AreMasks six
six_masks = (
  omega arith,
  omega arith,
  (
    omega arith,
    omega arith,
    (
      omega arith,
      omega arith,
      (omega arith, omega arith, (omega arith, omega arith, (omega arith, omega arith, tt))),
    ),
  ),
)

reversed-swaps : (x : ℕ) → reversed x ≡ swaps six x
unfolding reversed six swaps
reversed-swaps x = refl

-- Each bit goes to the mirrored position.
pub bit-reversed : (j x : ℕ) → j < 64 → x < 2 ^ 64 → bit j (reversed x) ≡ bit (63 - j) x
bit-reversed j x lj lx =
    ap (bit j) (reversed-swaps x)
    ∙ bit-swaps six (63 - j) j x six_masks lx
        (all_below-each (λ i. fits_from six (63 - i) i) 64 j table lj)

pub reversed-below : (x : ℕ) → x < 2 ^ 64 → reversed x < 2 ^ 64
reversed-below x lx =
    subst (λ (n : ℕ). n < 2 ^ 64) (sym (reversed-swaps x)) (swaps-below six x six_masks lx)
