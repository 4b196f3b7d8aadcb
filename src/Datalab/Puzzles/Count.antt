-- ===== src/Datalab/Puzzles/Count.antt =====
-- bitCount of datalab-handout/bits.c against its reference: the sum of the fields of a number is
-- kept while the fields grow.
use introduction_to_computer.Common.{
  ℕ, zero, suc, ◌+◌, ◌-◌, ◌*◌, ◌/◌, ◌%◌, ◌^◌, ◌<◌, ◌≤◌, ◌≡◌, ◌∙◌, refl, sym, ap, subst, bit_and,
  arith, pow-pos, pow-add, pow-dvd-pow, bit_and-mask, bit_and-fields, bit_and-below_mask,
  mod_unique, div_unique,
}
use native.Mathlib.Nat.{pow-le-pow_right, div-add-mod', mod-lt, mod-mod_of_dvd, div-div-eq-div-mul}
use introduction_to_computer.Datalab.Words.{shift_right}
use introduction_to_computer.Datalab.Puzzles.{
  mask1, mask2, mask3, mask4, mask5, mask6, add_fields, bit_count,
}
use introduction_to_computer.Datalab.Puzzles.Shifts.{masked_shift}
use introduction_to_computer.Datalab.References.{count_loop, test_bit_count}

-- The sum of the `n` lowest fields of `w` bits.
fields_sum : (w n x : ℕ) → ℕ
fields_sum w zero x = 0
fields_sum w (suc n) x = x % 2 ^ w + fields_sum w n (x / 2 ^ w)

-- The mask of every second of `2 * n` fields.
fields_mask : (w n : ℕ) → ℕ
fields_mask w zero = 0
fields_mask w (suc n) = fields_mask w n * 2 ^ (w * 2) + (2 ^ w - 1)

module _ (w : ℕ) where
  square : 2 ^ (w * 2) ≡ 2 ^ w * 2 ^ w
  square = ap (λ (k : ℕ). 2 ^ k) {x = w * 2} {y = w + w} (omega arith) ∙ pow-add w w

  twice : (z : ℕ) → z / 2 ^ w / 2 ^ w ≡ z / 2 ^ (w * 2)
  twice z = div-div-eq-div-mul z (2 ^ w) (2 ^ w) ∙ ap (λ (p : ℕ). z / p) (sym square)

  grows : 2 ^ w ≤ 2 ^ (w * 2)
  grows = pow-le-pow_right (omega arith) {i = w} {j = w * 2} (omega arith)

  low_part : (z : ℕ) → z % 2 ^ (w * 2) % 2 ^ w ≡ z % 2 ^ w
  low_part z = mod-mod_of_dvd (2 ^ w) z (pow-dvd-pow w (w * 2) (omega arith))

  -- The lowest of the pairs of fields under the mask.
  masked_pair :
      (n z : ℕ)
      → bit_and z (fields_mask w (suc n))
        ≡ bit_and (z / 2 ^ (w * 2)) (fields_mask w n) * 2 ^ (w * 2) + z % 2 ^ w
  unfolding fields_mask
  masked_pair n z =
      let parts = div-add-mod' z (2 ^ (w * 2)) in
      let ones : 2 ^ w - 1 < 2 ^ (w * 2) = omega (arith, square, pow-pos w, grows) in
      ap (λ (a : ℕ). bit_and a (fields_mask w n * 2 ^ (w * 2) + (2 ^ w - 1))) (sym parts)
      ∙ bit_and-fields (w * 2) (z / 2 ^ (w * 2)) (z % 2 ^ (w * 2)) (fields_mask w n) (2 ^ w - 1)
          (mod-lt z (pow-pos (w * 2))) ones
      ∙ ap (λ (b : ℕ). bit_and (z / 2 ^ (w * 2)) (fields_mask w n) * 2 ^ (w * 2) + b)
          (bit_and-mask w (z % 2 ^ (w * 2)) ∙ low_part z)

  pair_below : (a b : ℕ) → 1 ≤ w → a < 2 ^ w → b < 2 ^ w → a + b < 2 ^ (w * 2)
  pair_below a b lw la lb =
      let double : 2 ^ (w + 1) ≤ 2 ^ (w * 2) =
        pow-le-pow_right (omega arith) {i = w + 1} {j = w * 2} (omega (arith, lw)) in
      let next : 2 ^ (w + 1) ≡ 2 ^ w * 2 = pow-add w 1 in omega (arith, la, lb, double, next)

  pairs_next :
      (n x : ℕ)
      → fields_sum w (suc n * 2) x
        ≡ x % 2 ^ w + (x / 2 ^ w % 2 ^ w + fields_sum w (n * 2) (x / 2 ^ (w * 2)))
  unfolding fields_sum
  pairs_next n x = let e : suc n * 2 ≡ suc (suc (n * 2)) = omega arith in rw (e, twice x) refl

  sum_pairs :
      (n x : ℕ)
      → 1 ≤ w
      → fields_sum (w * 2) n (bit_and x (fields_mask w n) + bit_and (x / 2 ^ w) (fields_mask w n))
        ≡ fields_sum w (n * 2) x
  unfolding fields_sum
  sum_pairs zero x lw = refl
  sum_pairs (suc n) x lw =
      let a = x % 2 ^ w in
      let b = x / 2 ^ w % 2 ^ w in
      let hi = bit_and (x / 2 ^ (w * 2)) (fields_mask w n) in
      let hi' = bit_and (x / 2 ^ (w * 2) / 2 ^ w) (fields_mask w n) in
      let below : a + b < 2 ^ (w * 2) =
        pair_below a b lw (mod-lt x (pow-pos w)) (mod-lt (x / 2 ^ w) (pow-pos w)) in
      let swap : x / 2 ^ w / 2 ^ (w * 2) ≡ x / 2 ^ (w * 2) / 2 ^ w =
        sym (twice (x / 2 ^ w)) ∙ ap (λ (q : ℕ). q / 2 ^ w) (twice x) in
      let second =
        masked_pair n (x / 2 ^ w)
        ∙ ap (λ (q : ℕ). bit_and q (fields_mask w n) * 2 ^ (w * 2) + b) swap in
      let total : hi * 2 ^ (w * 2) + a + (hi' * 2 ^ (w * 2) + b)
          ≡ (hi + hi') * 2 ^ (w * 2) + (a + b) =
        omega arith in
      rw
        (
          masked_pair n x,
          second,
          total,
          mod_unique (2 ^ (w * 2)) (hi + hi') (a + b) below,
          div_unique (2 ^ (w * 2)) (hi + hi') (a + b) below,
          sum_pairs n (x / 2 ^ (w * 2)) lw,
          pairs_next n x,
        )
        (omega arith)

-- One line of the function, with its mask.
add_fields-sum :
    (w n x : ℕ)
    → 1 ≤ w
    → w ≤ 64
    → x < 2 ^ 64
    → fields_mask w n < 2 ^ (64 - w)
    → (add_fields (fields_mask w n) w x < 2 ^ 64)
      × (fields_sum (w * 2) n (add_fields (fields_mask w n) w x) ≡ fields_sum w (n * 2) x)
unfolding add_fields
add_fields-sum w n x lw uw lx lm =
    let mask = fields_mask w n in
    let top : 2 ^ (64 - w) ≤ 2 ^ 63 =
      pow-le-pow_right (omega arith) {i = 64 - w} {j = 63} (omega (arith, lw)) in
    let small : mask < 2 ^ 63 = omega (arith, top, lm) in
    let first = bit_and-below_mask 63 x mask small in
    let second = bit_and-below_mask 63 (x / 2 ^ w) mask small in
    let e : (bit_and x mask + bit_and (shift_right x w) mask) % 2 ^ 64
        ≡ bit_and x mask + bit_and (x / 2 ^ w) mask =
      ap (λ (b : ℕ). (bit_and x mask + b) % 2 ^ 64) (masked_shift x w mask lx uw lm)
      ∙ omega (arith, first, second) in
    (omega arith, ap (fields_sum (w * 2) n) e ∙ sum_pairs w n x lw)

count_loop-sum :
    (k i r x : ℕ)
    → k + i ≡ 64
    → r ≤ i
    → x < 2 ^ 64
    → count_loop k i r x ≡ r + fields_sum 1 k (x / 2 ^ i)
unfolding count_loop fields_sum
count_loop-sum zero i r x e l lx = omega arith
count_loop-sum (suc k) i r x e l lx =
    let pair : 2 ^ 1 ≤ 2 ^ (64 - i) =
      pow-le-pow_right (omega arith) {i = 1} {j = 64 - i} (omega (arith, e)) in
    let top : 1 < 2 ^ (64 - i) = omega (arith, pair) in
    let low : bit_and (shift_right x i) 1 ≡ x / 2 ^ i % 2 =
      masked_shift x i 1 lx (omega (arith, e)) top ∙ bit_and-mask 1 (x / 2 ^ i) in
    let next : x / 2 ^ i / 2 ≡ x / 2 ^ (i + 1) =
      div-div-eq-div-mul x (2 ^ i) 2 ∙ ap (λ (p : ℕ). x / p) (sym (pow-add i 1)) in
    let sum : (r + x / 2 ^ i % 2) % 2 ^ 64 ≡ r + x / 2 ^ i % 2 = omega (arith, l, e) in
    rw (low, sum, next)
      (count_loop-sum k (i + 1) (r + x / 2 ^ i % 2) x (omega (arith, e)) (omega (arith, l)) lx
        ∙ omega arith)

line :
    (w n mask x : ℕ)
    → fields_mask w n ≡ mask
    → 1 ≤ w
    → w ≤ 64
    → mask < 2 ^ (64 - w)
    → x < 2 ^ 64
    → (add_fields mask w x < 2 ^ 64)
      × (fields_sum (w * 2) n (add_fields mask w x) ≡ fields_sum w (n * 2) x)
line w n mask x e lw uw lm lx =
    subst
      (λ (m : ℕ).
        (add_fields m w x < 2 ^ 64)
        × (fields_sum (w * 2) n (add_fields m w x) ≡ fields_sum w (n * 2) x))
      e (add_fields-sum w n x lw uw lx (rw e lm))

one_field : (x : ℕ) → x < 2 ^ 64 → fields_sum 64 1 x ≡ x
unfolding fields_sum
one_field x l = omega (arith, l)

bit_count-sum : (x : ℕ) → x < 2 ^ 64 → bit_count x ≡ fields_sum 1 64 x
unfolding bit_count fields_mask
bit_count-sum x lx =
    let f1 = line 1 32 mask1 x refl (omega arith) (omega arith) (omega arith) lx in
    let f2 = line 2 16 mask2 _ refl (omega arith) (omega arith) (omega arith) (f1.0) in
    let f3 = line 4 8 mask3 _ refl (omega arith) (omega arith) (omega arith) (f2.0) in
    let f4 = line 8 4 mask4 _ refl (omega arith) (omega arith) (omega arith) (f3.0) in
    let f5 = line 16 2 mask5 _ refl (omega arith) (omega arith) (omega arith) (f4.0) in
    let f6 = line 32 1 mask6 _ refl (omega arith) (omega arith) (omega arith) (f5.0) in
    sym (one_field (bit_count x) (f6.0)) ∙ f6.1 ∙ f5.1 ∙ f4.1 ∙ f3.1 ∙ f2.1 ∙ f1.1

-- On every word, bitCount is the count that the loop over the 64 bits makes.
pub bit_count-test : (x : ℕ) → x < 2 ^ 64 → bit_count x ≡ test_bit_count x
unfolding test_bit_count
bit_count-test x lx =
    let whole : x / 2 ^ 0 ≡ x = omega arith in
    bit_count-sum x lx
    ∙ sym (
        count_loop-sum 64 0 0 x refl (omega arith) lx
        ∙ ap (λ (z : ℕ). 0 + fields_sum 1 64 z) whole
        ∙ omega arith)
