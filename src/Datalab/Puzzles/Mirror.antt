-- ===== src/Datalab/Puzzles/Mirror.antt =====
-- The exchange of neighbouring fields in isPalindrome of datalab-handout/bits.c: where it moves a bit.
use introduction_to_computer.Common.{
  ℕ, ◌+◌, ◌-◌, ◌/◌, ◌^◌, ◌<◌, ◌≤◌, ◌≡◌, ◌≢◌, ◌∙◌, ◌⊎◌, inl, inr, refl, ap, subst, Bool, true, false,
  ◌&&◌, ◌||◌, ltb, leb, ◌==◌, if◌then◌else◌, bit_and, min, max, arith, Bool-cases, ltb→lt, leb→le,
  ==-same, ==-differ, bit, bit-below, bit-and, bit-or, bit_and-below, bit_or-below,
  bit_and-below_mask,
}
use native.Mathlib.Nat.{pow-le-pow_right}
use introduction_to_computer.Datalab.Words.{shift_left, shift_right}
use introduction_to_computer.Datalab.Puzzles.{swap_fields}
use introduction_to_computer.Datalab.Puzzles.Shifts.{
  masked_shift, bit-shift_right, bit-shift_left-low, bit-shift_left-high,
}

true_or_false : false ≢ true
true_or_false e = ground (arith, e)

pub and_first : (a b : Bool) → (a && b) ≡ true → a ≡ true
and_first true b e = refl
and_first false b e = e

pub and_second : (a b : Bool) → (a && b) ≡ true → b ≡ true
and_second true b e = e
and_second false b e = absurd (true_or_false e)

or_cases : (a b : Bool) → (a || b) ≡ true → (a ≡ true) ⊎ (b ≡ true)
or_cases true b e = inl refl
or_cases false b e = inr e

-- The position that the exchange of fields of `s` bits brings to the position `j`.
unfoldable pub flip : (mask s j : ℕ) → ℕ
flip mask s j = if bit j mask == 1 then s + j else j - s

-- What the bits of a mask must be at a position and at its partner.
unfoldable pub partner_above : (mask s j : ℕ) → Bool
partner_above mask s j =
    (ltb (s + j) 64 && (bit (s + j) (shift_left mask s) == 1))
    && (ltb j s || (leb s j && (bit (j - s) mask == 0)))

unfoldable pub partner_below : (mask s j : ℕ) → Bool
partner_below mask s j = leb s j && (bit (j - s) mask == 1)

unfoldable pub fits : (mask s j : ℕ) → Bool
unfolding partner_above partner_below
fits mask s j = if bit j mask == 1 then partner_above mask s j else partner_below mask s j

bit-first :
    (mask s j x : ℕ)
    → s ≤ j
    → j < 64
    → bit j (shift_left (bit_and x mask) s) ≡ min (bit (j - s) x) (bit (j - s) mask)
bit-first mask s j x ls lj = bit-shift_left-high j s (bit_and x mask) ls lj ∙ bit-and (j - s) x mask

bit-second :
    (mask s j x : ℕ)
    → x < 2 ^ 64
    → s ≤ 64
    → mask < 2 ^ (64 - s)
    → bit j (bit_and (shift_right (bit_and x (shift_left mask s)) s) mask)
      ≡ min (min (bit (s + j) x) (bit (s + j) (shift_left mask s))) (bit j mask)
bit-second mask s j x lx ls lm =
    let y = bit_and x (shift_left mask s) in
    ap (bit j)
      (masked_shift y s mask (bit_and-below 64 x (shift_left mask s) lx (omega arith)) ls lm)
    ∙ bit-and j (y / 2 ^ s) mask
    ∙ ap (λ (b : ℕ). min b (bit j mask))
        (bit-shift_right j s y ∙ bit-and (s + j) x (shift_left mask s))

partner_above_lem :
    (mask s j : ℕ)
    → partner_above mask s j ≡ true
    → (bit (s + j) (shift_left mask s) ≡ 1) × ((j < s) ⊎ ((s ≤ j) × (bit (j - s) mask ≡ 0)))
unfolding partner_above
partner_above_lem mask s j e = (
  ==-same (bit (s + j) (shift_left mask s)) 1
      (and_second _ (bit (s + j) (shift_left mask s) == 1) (and_first _ _ e)),
  elim (or_cases (ltb j s) (leb s j && (bit (j - s) mask == 0)) (and_second _ _ e)) [
    | inl low ↦ inl (ltb→lt j s low)
    | inr high ↦ inr (
      leb→le s j (and_first (leb s j) (bit (j - s) mask == 0) high),
      ==-same (bit (j - s) mask) 0 (and_second (leb s j) _ high),
    )
  ],
)

partner_below_lem :
    (mask s j : ℕ) → partner_below mask s j ≡ true → (s ≤ j) × (bit (j - s) mask ≡ 1)
unfolding partner_below
partner_below_lem mask s j e = (
  leb→le s j (and_first (leb s j) (bit (j - s) mask == 1) e),
  ==-same (bit (j - s) mask) 1 (and_second (leb s j) _ e),
)

-- One exchange of fields, at a position that the mask has and at one that it has not.
module _ (mask s j x : ℕ) (lx : x < 2 ^ 64) (ls : s ≤ 64) (lm : mask < 2 ^ (64 - s))
    (lj : j < 64) where
  both_parts :
      bit j (swap_fields mask s x)
      ≡ max
          (bit j (shift_left (bit_and x mask) s))
          (min (min (bit (s + j) x) (bit (s + j) (shift_left mask s))) (bit j mask))
  unfolding swap_fields
  both_parts =
      bit-or j (shift_left (bit_and x mask) s)
        (bit_and (shift_right (bit_and x (shift_left mask s)) s) mask)
      ∙ ap (max (bit j (shift_left (bit_and x mask) s))) (bit-second mask s j x lx ls lm)

  from_above :
      bit j mask ≡ 1
      → bit (s + j) (shift_left mask s) ≡ 1
      → (j < s) ⊎ ((s ≤ j) × (bit (j - s) mask ≡ 0))
      → bit j (swap_fields mask s x) ≡ bit (s + j) x
  from_above set partner other =
      let none : bit j (shift_left (bit_and x mask) s) ≡ 0 = elim other [
        | inl low ↦ bit-shift_left-low j s (bit_and x mask) low ls
        | inr (high, clear) ↦ bit-first mask s j x high lj ∙ omega (arith, clear)
      ] in
      both_parts ∙ rw (none, partner, set) (omega (arith, bit-below (s + j) x))

  from_below :
      bit j mask ≡ 0 → s ≤ j → bit (j - s) mask ≡ 1 → bit j (swap_fields mask s x) ≡ bit (j - s) x
  from_below clear high set =
      both_parts
      ∙ rw (bit-first mask s j x high lj, clear, set) (omega (arith, bit-below (j - s) x))

pub bit-swap_fields :
    (mask s j x : ℕ)
    → x < 2 ^ 64
    → s ≤ 64
    → mask < 2 ^ (64 - s)
    → j < 64
    → fits mask s j ≡ true
    → bit j (swap_fields mask s x) ≡ bit (flip mask s j) x
unfolding fits flip
bit-swap_fields mask s j x lx ls lm lj e = elim (Bool-cases (bit j mask == 1)) [
  | inl set ↦ rw set (
      above (==-same (bit j mask) 1 set) (
        subst (λ (b : Bool). (if b then partner_above mask s j else partner_below mask s j) ≡ true)
          set e))
  | inr clear ↦ rw clear (
      below (==-differ (bit j mask) 1 clear) (
        subst (λ (b : Bool). (if b then partner_above mask s j else partner_below mask s j) ≡ true)
          clear e))
]
  where
    above :
        bit j mask ≡ 1
        → partner_above mask s j ≡ true
        → bit j (swap_fields mask s x) ≡ bit (s + j) x
    above set p =
        let (partner, other) = partner_above_lem mask s j p in
        from_above mask s j x lx ls lm lj set partner other

    below :
        bit j mask ≢ 1
        → partner_below mask s j ≡ true
        → bit j (swap_fields mask s x) ≡ bit (j - s) x
    below clear p =
        let (high, set) = partner_below_lem mask s j p in
        from_below mask s j x lx ls lm lj (omega (arith, bit-below j mask, clear)) high set

pub swap_fields-below : (mask s x : ℕ) → mask < 2 ^ (64 - s) → swap_fields mask s x < 2 ^ 64
unfolding swap_fields
swap_fields-below mask s x lm =
    let top : 2 ^ (64 - s) ≤ 2 ^ 64 =
      pow-le-pow_right (omega arith) {i = 64 - s} {j = 64} (omega arith) in
    bit_or-below 64 (shift_left (bit_and x mask) s)
      (bit_and (shift_right (bit_and x (shift_left mask s)) s) mask) (omega arith)
      (bit_and-below_mask 64 (shift_right (bit_and x (shift_left mask s)) s) mask
        (omega (arith, lm, top)))
