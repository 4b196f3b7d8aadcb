-- ===== src/Datalab/Puzzles/Shifts.antt =====
-- Shifts to the right under the masks of datalab-handout/bits.c, which hide the copies of the sign.
use introduction_to_computer.Common.{
  ℕ, zero, suc, ◌+◌, ◌-◌, ◌*◌, ◌/◌, ◌%◌, ◌^◌, ◌<◌, ◌≤◌, ◌≡◌, ◌∙◌, inl, inr, refl, sym, ap, ltb,
  bit_and, arith, pow-pos, pow-add, Bool-cases, bit_and-low, mod_unique, bit, bit-suc, mod-double,
}
use native.Mathlib.Nat.{pow-suc, div-div-eq-div-mul, div-lt_iff_lt-mul}
use introduction_to_computer.Datalab.Words.{shift_left, shift_right}

pub power_next : (i : ℕ) → 2 ^ (i + 1) ≡ 2 ^ i * 2
power_next i = let e : i + 1 ≡ suc i = omega arith in rw (e, pow-suc 2 i) refl

pub power_parts : (s : ℕ) → s ≤ 64 → 2 ^ s * 2 ^ (64 - s) ≡ 2 ^ 64
power_parts s l =
    sym (pow-add s (64 - s)) ∙ ap (λ (k : ℕ). 2 ^ k) {x = s + (64 - s)} {y = 64} (omega (arith, l))

pub shifted_below : (x s : ℕ) → x < 2 ^ 64 → s ≤ 64 → x / 2 ^ s < 2 ^ (64 - s)
shifted_below x s lx ls = (div-lt_iff_lt-mul (pow-pos s)).1 (omega (arith, power_parts s ls, lx))

pub masked_shift :
    (x s mask : ℕ)
    → x < 2 ^ 64
    → s ≤ 64
    → mask < 2 ^ (64 - s)
    → bit_and (shift_right x s) mask ≡ bit_and (x / 2 ^ s) mask
masked_shift x s mask lx ls lm = elim (Bool-cases (ltb x (2 ^ 63))) [
  | inl positive ↦ rw positive refl
  | inr negative ↦
      let copies : x / 2 ^ s + (2 ^ 64 - 2 ^ (64 - s)) ≡ (2 ^ s - 1) * 2 ^ (64 - s) + x / 2 ^ s =
        omega (
          arith,
          power_parts s ls,
          ap (λ (n : ℕ). n * 2 ^ (64 - s)) {x = 2 ^ s} {y = 2 ^ s - 1 + 1}
              (omega (arith, pow-pos s)),
        ) in
      rw (negative, copies, bit_and-low (64 - s) ((2 ^ s - 1) * 2 ^ (64 - s) + x / 2 ^ s) mask lm)
        (ap (λ (n : ℕ). bit_and n mask)
          (mod_unique (2 ^ (64 - s)) (2 ^ s - 1) (x / 2 ^ s) (shifted_below x s lx ls)))
]

pub bit-shift_right : (j s x : ℕ) → bit j (x / 2 ^ s) ≡ bit (s + j) x
bit-shift_right j s x =
    ap (λ (q : ℕ). q % 2)
      (div-div-eq-div-mul x (2 ^ s) (2 ^ j) ∙ ap (λ (p : ℕ). x / p) (sym (pow-add s j)))

pub bit-mod : (j n z : ℕ) → j < n → bit j (z % 2 ^ n) ≡ bit j z
bit-mod j zero z l = absurd (omega (arith, l))
bit-mod zero (suc n) z l =
    let e : z / 2 ^ 0 ≡ z = omega arith in
    let e' : z % 2 ^ suc n / 2 ^ 0 ≡ z % 2 ^ suc n = omega arith in
    rw (e, e', pow-suc 2 n, mod-double z (2 ^ n) (pow-pos n)) (omega arith)
bit-mod (suc j) (suc n) z l =
    let half : z % 2 ^ suc n / 2 ≡ z / 2 % 2 ^ n =
      rw (pow-suc 2 n, mod-double z (2 ^ n) (pow-pos n)) (omega arith) in
    bit-suc j (z % 2 ^ suc n)
    ∙ ap (bit j) half
    ∙ bit-mod j n (z / 2) (omega (arith, l))
    ∙ sym (bit-suc j z)

next_power : (s x : ℕ) → x * 2 ^ suc s / 2 ≡ x * 2 ^ s
next_power s x = omega (arith, ap (λ (p : ℕ). x * p) (pow-suc 2 s))

bit-mul_low : (j s x : ℕ) → j < s → bit j (x * 2 ^ s) ≡ 0
bit-mul_low j zero x l = absurd (omega (arith, l))
bit-mul_low zero (suc s) x l = omega (arith, ap (λ (p : ℕ). x * p) (pow-suc 2 s))
bit-mul_low (suc j) (suc s) x l =
    bit-suc j (x * 2 ^ suc s) ∙ ap (bit j) (next_power s x) ∙ bit-mul_low j s x (omega (arith, l))

bit-mul_high : (j s x : ℕ) → bit (s + j) (x * 2 ^ s) ≡ bit j x
bit-mul_high j zero x =
    let e : x * 2 ^ 0 ≡ x = omega arith in let f : 0 + j ≡ j = omega arith in rw (e, f) refl
bit-mul_high j (suc s) x =
    let e : suc s + j ≡ suc (s + j) = omega arith in
    ap (λ (k : ℕ). bit k (x * 2 ^ suc s)) e
    ∙ bit-suc (s + j) (x * 2 ^ suc s)
    ∙ ap (bit (s + j)) (next_power s x)
    ∙ bit-mul_high j s x

-- The bits of a word that is shifted to the left.
pub bit-shift_left-low : (j s x : ℕ) → j < s → s ≤ 64 → bit j (shift_left x s) ≡ 0
bit-shift_left-low j s x lj ls =
    bit-mod j 64 (x * 2 ^ s) (omega (arith, lj, ls)) ∙ bit-mul_low j s x lj

pub bit-shift_left-high : (j s x : ℕ) → s ≤ j → j < 64 → bit j (shift_left x s) ≡ bit (j - s) x
bit-shift_left-high j s x ls lj =
    let e : s + (j - s) ≡ j = omega (arith, ls) in
    bit-mod j 64 (x * 2 ^ s) lj
    ∙ ap (λ (k : ℕ). bit k (x * 2 ^ s)) (sym e)
    ∙ bit-mul_high (j - s) s x
