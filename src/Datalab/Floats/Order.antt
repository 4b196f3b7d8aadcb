-- ===== src/Datalab/Floats/Order.antt =====
-- The bit patterns without a sign, of datalab-handout/bits.c, are in the order of their values.
use introduction_to_computer.Common.{
  ℕ, zero, suc, ◌+◌, ◌-◌, ◌*◌, ◌/◌, ◌%◌, ◌^◌, ◌<◌, ◌≡◌, ◌≢◌, ◌∙◌, sym, ap, subst, ◌==◌, arith,
  pow-add, pow-pos, Bool-cases, inl, inr, ==-apart, ==-same, ==-differ, ltb, ltb→lt,
}
use introduction_to_computer.Datalab.Floats.Value.{units}

-- The units of exponent and fraction together.
abbrev pub units_of : ℕ → ℕ
units_of w = units (w / 2 ^ 23) (w % 2 ^ 23)

units-fraction : (exp frac : ℕ) → units exp frac < units exp (frac + 1)
units-fraction exp frac = elim (Bool-cases (exp == 0)) [
  | inl z ↦ rw z (omega arith)
  | inr normal ↦ let positive = pow-pos (exp - 1) in rw normal (grind (arith, positive))
]

units-exponent : (exp : ℕ) → units exp (2 ^ 23 - 1) < units (exp + 1) 0
units-exponent exp =
    let next = ==-apart (exp + 1) 0 (λ e. omega (arith, e)) in
    elim (Bool-cases (exp == 0)) [
      | inl z ↦ (let e = ==-same exp 0 z in rw e (omega arith))
      | inr normal ↦
          let nz = ==-differ exp 0 normal in
          let positive = pow-pos (exp - 1) in
          let power : 2 ^ (exp + 1 - 1) ≡ 2 ^ (exp - 1) * 2 =
            ap (λ (n : ℕ). 2 ^ n) (omega (arith, nz)) ∙ pow-add (exp - 1) 1 in
          rw (next, normal, power) (omega (arith, positive))
    ]

units_of-next : (w : ℕ) → units_of w < units_of (w + 1)
units_of-next w = elim (Bool-cases (ltb (w % 2 ^ 23 + 1) (2 ^ 23))) [
  | inl room ↦
      let lt = ltb→lt (w % 2 ^ 23 + 1) (2 ^ 23) room in
      let e : (w + 1) / 2 ^ 23 ≡ w / 2 ^ 23 = omega (arith, lt) in
      let f : (w + 1) % 2 ^ 23 ≡ w % 2 ^ 23 + 1 = omega (arith, lt) in
      rw (e, f) (units-fraction (w / 2 ^ 23) (w % 2 ^ 23))
  | inr last ↦
      let f0 : w % 2 ^ 23 ≡ 2 ^ 23 - 1 = ground (arith, last) in
      let e : (w + 1) / 2 ^ 23 ≡ w / 2 ^ 23 + 1 = omega (arith, f0) in
      let f : (w + 1) % 2 ^ 23 ≡ 0 = omega (arith, f0) in
      rw (e, f, f0) (units-exponent (w / 2 ^ 23))
]

less_less : (a b c : ℕ) → a < b → b < c → a < c
less_less a b c h k = omega (arith, h, k)

less_differ : (a b : ℕ) → a < b → a ≢ b
less_differ a b h = λ e. omega (arith, h, e)

units_of-less : (d w : ℕ) → units_of w < units_of (w + suc d)
units_of-less zero w = units_of-next w
units_of-less (suc d) w =
    less_less (units_of w) (units_of (w + suc d)) (units_of (w + suc (suc d))) (units_of-less d w)
      (subst (λ n. units_of (w + suc d) < units_of n) (omega arith) (units_of-next (w + suc d)))

units_of-ordered : (w v : ℕ) → w < v → units_of w < units_of v
units_of-ordered w v lt =
    subst (λ n. units_of w < units_of n) (omega (arith, lt)) (units_of-less (v - w - 1) w)

pub units_of_injective : (w v : ℕ) → units_of w ≡ units_of v → w ≡ v
units_of_injective w v e = elim (Bool-cases (w == v)) [
  | inl same ↦ ==-same w v same
  | inr other ↦
      let ne = ==-differ w v other in
      elim (Bool-cases (ltb w v)) [
        | inl less ↦
            absurd
              (less_differ (units_of w) (units_of v) (units_of-ordered w v (ltb→lt w v less)) e)
        | inr more ↦
            let lt : v < w = ground (arith, more, ne) in
            absurd (less_differ (units_of v) (units_of w) (units_of-ordered v w lt) (sym e))
      ]
]
