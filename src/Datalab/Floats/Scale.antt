-- ===== src/Datalab/Floats/Scale.antt =====
-- What floatScale4 of datalab-handout/bits.c makes of the value of a float.
use introduction_to_computer.Common.{
  ℕ, ◌+◌, ◌-◌, ◌*◌, ◌/◌, ◌%◌, ◌^◌, ◌<◌, ◌≤◌, ◌≡◌, ◌≢◌, ◌∙◌, ◌⊎◌, refl, sym, ap, Bool, true, false,
  not, ◌&&◌, ◌||◌, leb, ◌==◌, if◌then◌else◌, bit_and, arith, bit_and-one, bit_and-mask, bit_or-add,
  pow-add, Bool-cases, inl, inr, ==-apart, ==-same, ==-differ, leb→le,
}
use native.Mathlib.Nat.{pow-le-pow_right, mul-le-mul}
use introduction_to_computer.Datalab.Floats.{scale_normalized, scale_denormalized, float_scale4}
use introduction_to_computer.Datalab.Floats.Value.{
  Float, nan, infinite, finite, units, value_of, decode, word_of, decode-word_of, pack-word_of,
}

-- Four times a value: from 2 ^ 128 on, which is 2 ^ 277 units, it is infinite.
abbrev pub times4 : Float → Float
times4 nan = nan
times4 (infinite s) = infinite s
times4 (finite s u) = if leb (2 ^ 277) (u * 4) then infinite s else finite s (u * 4)

small-times4 : (s : Bool) (u : ℕ) → u * 4 < 2 ^ 277 → times4 (finite s u) ≡ finite s (u * 4)
small-times4 s u lt = let test : leb (2 ^ 277) (u * 4) ≡ false = ground arith in rw test

large-times4 : (s : Bool) (u : ℕ) → 2 ^ 277 ≤ u * 4 → times4 (finite s u) ≡ infinite s
large-times4 s u le = let test : leb (2 ^ 277) (u * 4) ≡ true = ground arith in rw test

-- A fraction that runs over into the exponent.
value_of-carry :
    (sign x : ℕ) → x < 2 ^ 24 → value_of sign (x / 2 ^ 23) (x % 2 ^ 23) ≡ finite (sign == 1) x
value_of-carry sign x lt = elim (Bool-cases (leb (2 ^ 23) x)) [
  | inl le ↦
      let ge = leb→le (2 ^ 23) x le in
      let e : x / 2 ^ 23 ≡ 1 = omega (arith, ge, lt) in
      let f : x % 2 ^ 23 ≡ x - 2 ^ 23 = omega (arith, ge, lt) in
      rw (e, f) (ap (finite (sign == 1)) (omega (arith, ge)))
  | inr gt ↦
      let less : x < 2 ^ 23 = ground (arith, gt) in
      let e : x / 2 ^ 23 ≡ 0 = omega (arith, less) in
      let f : x % 2 ^ 23 ≡ x = omega (arith, less) in rw (e, f)
]

scale_denormalized-value :
    (sign frac : ℕ)
    → frac < 2 ^ 23
    → decode (scale_denormalized (sign * 2 ^ 31) 0 frac) ≡ times4 (finite (sign == 1) frac)
unfolding scale_denormalized
scale_denormalized-value sign frac lt =
    let bit = bit_and-one 22 frac in
    let four = small-times4 (sign == 1) frac (omega (arith, lt)) in
    elim (Bool-cases (bit_and frac 0x400000 == 0)) [
      | inr set ↦
          let high : 2 ^ 22 ≤ frac = omega (arith, bit, ==-differ (bit_and frac 0x400000) 0 set) in
          let shifted : frac * 2 % 2 ^ 32 ≡ frac * 2 = omega arith in
          let masked : bit_and (frac * 2) 0x7fffff ≡ frac * 2 - 2 ^ 23 =
            bit_and-mask 23 (frac * 2) ∙ omega (arith, high, lt) in
          rw (set, shifted, masked)
            (ap decode (pack-word_of sign 2 (frac * 2 - 2 ^ 23) (omega arith) (omega arith))
              ∙ decode-word_of sign 2 (frac * 2 - 2 ^ 23) (omega arith) (omega arith)
              ∙ ap (finite (sign == 1)) (omega (arith, high))
              ∙ sym four)
      | inl clear ↦
          let low : frac < 2 ^ 22 =
            omega (arith, bit, lt, ==-same (bit_and frac 0x400000) 0 clear) in
          let shifted : frac * 4 % 2 ^ 32 ≡ frac * 4 = omega arith in
          let split : sign * 2 ^ 31 + frac * 4
              ≡ word_of sign (frac * 4 / 2 ^ 23) (frac * 4 % 2 ^ 23) =
            omega arith in
          rw (clear, shifted)
            (ap decode (bit_or-add 31 sign (frac * 4) (omega arith) ∙ split)
              ∙ decode-word_of sign (frac * 4 / 2 ^ 23) (frac * 4 % 2 ^ 23) (omega arith)
                  (omega arith)
              ∙ value_of-carry sign (frac * 4) (omega (arith, low))
              ∙ sym four)
    ]

scale_normalized-value :
    (sign exp frac : ℕ)
    → exp ≢ 0
    → exp < 255
    → frac < 2 ^ 23
    → decode (scale_normalized (sign * 2 ^ 31) exp frac)
      ≡ times4 (finite (sign == 1) (units exp frac))
unfolding scale_normalized
scale_normalized-value sign exp frac nz le lt =
    let added : (exp + 2) % 2 ^ 32 ≡ exp + 2 = omega arith in
    let normal = ==-apart exp 0 nz in
    let p = 2 ^ (exp - 1) in
    elim (Bool-cases (leb 0xff (exp + 2))) [
      | inl over ↦
          let top = leb→le 0xff (exp + 2) over in
          let power : 2 ^ 252 ≤ p =
            pow-le-pow_right (omega arith) {i = 252} {j = exp - 1} (omega (arith, top)) in
          let product : 2 ^ 23 * 2 ^ 252 ≤ (2 ^ 23 + frac) * p =
            mul-le-mul {n₁ = 2 ^ 23} {n₂ = 2 ^ 23 + frac} (omega arith) power in
          rw (added, over, normal)
            (ap decode (pack-word_of sign 255 0 (omega arith) (omega arith))
              ∙ decode-word_of sign 255 0 (omega arith) (omega arith)
              ∙ sym (large-times4 (sign == 1) ((2 ^ 23 + frac) * p) (omega (arith, product))))
      | inr under ↦
          let low : exp + 2 < 255 = ground (arith, under) in
          let power : p ≤ 2 ^ 251 =
            pow-le-pow_right (omega arith) {i = exp - 1} {j = 251} (omega (arith, low)) in
          let product : (2 ^ 23 + frac) * p ≤ (2 ^ 24 - 1) * 2 ^ 251 =
            mul-le-mul {n₁ = 2 ^ 23 + frac} {n₂ = 2 ^ 24 - 1} (omega (arith, lt)) power in
          let not_top = ==-apart (exp + 2) 255 (λ e. omega (arith, e, low)) in
          let not_zero = ==-apart (exp + 2) 0 (λ e. omega (arith, e)) in
          let power4 : 2 ^ (exp + 2 - 1) ≡ p * 4 =
            ap (λ (n : ℕ). 2 ^ n) (omega (arith, nz)) ∙ pow-add (exp - 1) 2 in
          let four : (2 ^ 23 + frac) * 2 ^ (exp + 2 - 1) ≡ (2 ^ 23 + frac) * p * 4 =
            ap (λ (n : ℕ). (2 ^ 23 + frac) * n) power4 ∙ omega arith in
          rw (added, under, normal)
            (ap decode (pack-word_of sign (exp + 2) frac (omega (arith, low)) lt)
              ∙ decode-word_of sign (exp + 2) frac (omega (arith, low)) lt
              ∙ rw (not_top, not_zero, four)
                  (sym (small-times4 (sign == 1) ((2 ^ 23 + frac) * p) (omega (arith, product)))))
    ]

-- Words that floatScale4 returns as they are.
unchanged :
    (sign exp frac : ℕ)
    → (exp == 255) || ((exp == 0) && (frac == 0)) ≡ true
    → value_of sign exp frac ≡ times4 (value_of sign exp frac)
unchanged sign exp frac h = elim (Bool-cases (exp == 255)) [
  | inl top ↦ elim (Bool-cases (frac == 0)) [
    | inl zero_frac ↦ rw (top, zero_frac)
    | inr other ↦ rw (top, other)
  ]
  | inr low ↦
      let z : exp ≡ 0 = ground (arith, h, low) in
      let f : frac ≡ 0 = ground (arith, h, low) in rw (z, f)
]

scale_fields :
    (sign exp frac : ℕ)
    → exp < 256
    → frac < 2 ^ 23
    → (exp == 255) || ((exp == 0) && (frac == 0)) ≡ false
    → decode (
        if not (exp == 0)
        then scale_normalized (sign * 2 ^ 31) exp frac
        else scale_denormalized (sign * 2 ^ 31) exp frac)
      ≡ times4 (value_of sign exp frac)
scale_fields sign exp frac le lt h =
    let top : exp ≢ 255 = λ e. ground (arith, h, e) in
    elim (Bool-cases (exp == 0)) [
      | inl z ↦ (let e = ==-same exp 0 z in rw e (scale_denormalized-value sign frac lt))
      | inr normal ↦
          let less : exp < 255 = omega (arith, le, top) in
          let other = ==-apart exp 255 top in
          let pick : (if not (exp == 0)
                then scale_normalized (sign * 2 ^ 31) exp frac
                else scale_denormalized (sign * 2 ^ 31) exp frac)
              ≡ scale_normalized (sign * 2 ^ 31) exp frac =
            rw normal in
          let value : value_of sign exp frac ≡ finite (sign == 1) (units exp frac) = rw other in
          ap decode pick
          ∙ scale_normalized-value sign exp frac (==-differ exp 0 normal) less lt
          ∙ ap times4 (sym value)
    ]

-- `floatScale4` of any word of 32 bits: the value of the result is four times the value of the
-- float, exactly, or the infinity of its sign where that is too large. A word whose exponent bits
-- are all set, that is an infinity or any word that is not a number, is returned as it is.
pub float_scale4_lem :
    (uf : ℕ)
    → uf < 2 ^ 32
    → (decode (float_scale4 uf) ≡ times4 (decode uf))
      × ((float_scale4 uf ≡ uf) ⊎ (uf / 2 ^ 23 % 256 ≢ 255))
unfolding float_scale4
float_scale4_lem uf lt =
    let sign : bit_and uf 0x80000000 ≡ uf / 2 ^ 31 * 2 ^ 31 = bit_and-one 31 uf ∙ omega arith in
    let exp : bit_and (uf / 2 ^ 23) 0xff ≡ uf / 2 ^ 23 % 256 = bit_and-mask 8 (uf / 2 ^ 23) in
    let frac : bit_and uf 0x7fffff ≡ uf % 2 ^ 23 = bit_and-mask 23 uf in
    elim (Bool-cases
      ((uf / 2 ^ 23 % 256 == 255) || ((uf / 2 ^ 23 % 256 == 0) && (uf % 2 ^ 23 == 0)))) [
        | inl stays ↦
            rw (sign, exp, frac)
              (rw stays (unchanged (uf / 2 ^ 31) (uf / 2 ^ 23 % 256) (uf % 2 ^ 23) stays, inl refl))
        | inr scaled ↦ (
          rw (sign, exp, frac)
              (rw scaled (
                scale_fields (uf / 2 ^ 31) (uf / 2 ^ 23 % 256) (uf % 2 ^ 23) (omega arith)
                  (omega arith) scaled)),
          inr (λ e. ground (arith, scaled, e)),
        )
      ]
