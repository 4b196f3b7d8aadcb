-- ===== src/Datalab/Puzzles/Positions.antt =====
-- The puzzles of datalab-handout/bits.c that find a bit of a number, against their references.
use introduction_to_computer.Common.{
  ℕ, zero, suc, ◌+◌, ◌-◌, ◌*◌, ◌/◌, ◌%◌, ◌^◌, ◌<◌, ◌≤◌, ◌≡◌, ◌≢◌, ◌∙◌, ◌⊎◌, inl, inr, refl, sym, ap,
  subst, true, false, ltb, leb, ◌==◌, bit_and, arith, pow-pos, Bool-cases, ltb_or, le→leb, leb_none,
  ==-apart, ==-same, ==-differ, bit, bit_and-power, bit_and_comm, bit_and-digit, bit_and-complement,
  div_unique,
}
use native.Mathlib.Nat.{pow-suc, pow-le-pow_right, div-lt_iff_lt-mul, div-eq_of_lt}
use introduction_to_computer.Datalab.Words.{shift_left, shift_right, is_zero}
use introduction_to_computer.Datalab.Puzzles.{least_bit_pos, find_half, integer_log2}
use introduction_to_computer.Datalab.Puzzles.Shifts.{power_next}
use introduction_to_computer.Datalab.References.{
  truth_of, least_loop, test_least_bit_pos, log_loop, test_integer_log2,
}

-- A number and its negation among `n` bits share the lowest bit that is set.
negation-odd : (n h : ℕ) → h < 2 ^ n → bit_and (h * 2 + 1) (2 ^ suc n - (h * 2 + 1)) ≡ 1
negation-odd n h l =
    let p = pow-suc 2 n in
    let eh : (h * 2 + 1) / 2 ≡ h = omega arith in
    let er : (h * 2 + 1) % 2 ≡ 1 = omega arith in
    let nh : (2 ^ suc n - (h * 2 + 1)) / 2 ≡ 2 ^ n - 1 - h = omega (arith, p, l) in
    let nr : (2 ^ suc n - (h * 2 + 1)) % 2 ≡ 1 = omega (arith, p, l) in
    bit_and-digit (h * 2 + 1) (2 ^ suc n - (h * 2 + 1))
    ∙ rw (eh, er, nh, nr, bit_and-complement n h l) refl

negation-even :
    (n h : ℕ) → h < 2 ^ n → bit_and (h * 2) (2 ^ suc n - h * 2) ≡ bit_and h (2 ^ n - h) * 2
negation-even n h l =
    let p = pow-suc 2 n in
    let eh : h * 2 / 2 ≡ h = omega arith in
    let er : h * 2 % 2 ≡ 0 = omega arith in
    let nh : (2 ^ suc n - h * 2) / 2 ≡ 2 ^ n - h = omega (arith, p, l) in
    let nr : (2 ^ suc n - h * 2) % 2 ≡ 0 = omega (arith, p, l) in
    bit_and-digit (h * 2) (2 ^ suc n - h * 2) ∙ rw (eh, er, nh, nr) (omega arith)

-- The mask of the loop on a number whose lowest `i` bits are 0.
mask_bit : (i q : ℕ) → bit_and (2 ^ i) (q * 2 ^ i) ≡ q % 2 * 2 ^ i
mask_bit i q =
    let none : q * 2 ^ i + 0 ≡ q * 2 ^ i = omega arith in
    let e : q * 2 ^ i / 2 ^ i ≡ q =
      ap (λ (k : ℕ). k / 2 ^ i) (sym none) ∙ div_unique (2 ^ i) q 0 (pow-pos i) in
    bit_and_comm (2 ^ i) (q * 2 ^ i) ∙ bit_and-power i (q * 2 ^ i) ∙ rw e refl

least_loop-negation :
    (k i q : ℕ)
    → k + i ≡ 64
    → q ≢ 0
    → q < 2 ^ k
    → least_loop k (2 ^ i) (q * 2 ^ i) ≡ bit_and q (2 ^ k - q) * 2 ^ i
unfolding least_loop
least_loop-negation zero i q e nz l = absurd (omega (arith, nz, l))
least_loop-negation (suc k) i q e nz l = elim (halves q) [
  | inl even ↦
      let value : q ≡ q / 2 * 2 = omega (arith, even) in
      let mask : bit_and (2 ^ i) (q * 2 ^ i) ≡ 0 =
        mask_bit i q ∙ ap (λ (r : ℕ). r * 2 ^ i) even ∙ omega arith in
      let more : k ≢ 0 =
        λ z. omega (arith, nz, even, l, ap (λ (n : ℕ). 2 ^ suc n) {x = k} {y = 0} z) in
      let top : 2 ^ i ≤ 2 ^ 62 =
        pow-le-pow_right (omega arith) {i = i} {j = 62} (omega (arith, e, more)) in
      let next : shift_left (2 ^ i) 1 ≡ 2 ^ (i + 1) = omega (arith, top, power_next i) in
      let moved : q * 2 ^ i ≡ q / 2 * 2 ^ (i + 1) =
        omega (arith, ap (λ (n : ℕ). n * 2 ^ i) value, ap (λ (n : ℕ). q / 2 * n) (power_next i)) in
      let rest =
        least_loop-negation k (i + 1) (q / 2) (omega (arith, e)) (omega (arith, nz, even))
          (omega (arith, l, pow-suc 2 k)) in
      let both : bit_and q (2 ^ suc k - q) ≡ bit_and (q / 2) (2 ^ k - q / 2) * 2 =
        subst (λ (n : ℕ). bit_and n (2 ^ suc k - n) ≡ bit_and (q / 2) (2 ^ k - q / 2) * 2)
          (sym value) (negation-even k (q / 2) (omega (arith, l, pow-suc 2 k))) in
      let set : (bit_and (2 ^ i) (q * 2 ^ i) == 0) ≡ true = rw mask refl in
      rw (set, next)
        (ap (least_loop k (2 ^ (i + 1))) moved
          ∙ rest
          ∙ omega (
            arith,
            ap (λ (n : ℕ). n * 2 ^ i) both,
            ap (λ (n : ℕ). bit_and (q / 2) (2 ^ k - q / 2) * n) (power_next i),
          ))
  | inr odd ↦
      let mask : bit_and (2 ^ i) (q * 2 ^ i) ≡ 2 ^ i =
        mask_bit i q ∙ ap (λ (r : ℕ). r * 2 ^ i) odd ∙ omega arith in
      let value : q / 2 * 2 + 1 ≡ q = omega (arith, odd) in
      let both : bit_and q (2 ^ suc k - q) ≡ 1 =
        subst (λ (n : ℕ). bit_and n (2 ^ suc k - n) ≡ 1) value
          (negation-odd k (q / 2) (omega (arith, l, pow-suc 2 k))) in
      let set : (bit_and (2 ^ i) (q * 2 ^ i) == 0) ≡ false =
        ==-apart (bit_and (2 ^ i) (q * 2 ^ i)) 0 (λ z. omega (arith, z, mask, pow-pos i)) in
      rw (set, both) (omega arith)
]
  where
    halves : (q : ℕ) → (q % 2 ≡ 0) ⊎ (q % 2 ≡ 1)
    halves q = omega arith

least_bit_pos-test : (x : ℕ) → x < 2 ^ 64 → least_bit_pos x ≡ test_least_bit_pos x
unfolding least_bit_pos test_least_bit_pos
least_bit_pos-test x lx = elim (Bool-cases (x == 0)) [
  | inl e ↦ rw (==-same x 0 e) refl
  | inr d ↦
      let nz : x ≢ 0 = ==-differ x 0 d in
      let negation : (2 ^ 64 - 1 - x + 1) % 2 ^ 64 ≡ 2 ^ 64 - x = omega (arith, lx, nz) in
      let whole : x * 2 ^ 0 ≡ x = omega arith in
      rw (d, negation)
        (sym
          (ap (least_loop 64 1) (sym whole) ∙ least_loop-negation 64 0 x refl nz lx ∙ omega arith))
]

-- The bounds of a number `x` whose highest bit has the position `r`.
HasHighest : (r x : ℕ) → Type 0
HasHighest r x = (2 ^ r ≤ x) × (x < 2 ^ (r + 1))

highest_unique : (r s x : ℕ) → HasHighest r x → HasHighest s x → r ≡ s
unfolding HasHighest
highest_unique r s x (lr, ur) (ls, us) = omega (arith, ordered r s lr us, ordered s r ls ur)
  where
    either : (r s : ℕ) → (r ≤ s) ⊎ (s + 1 ≤ r)
    either r s = omega arith

    ordered : (r s : ℕ) → 2 ^ r ≤ x → x < 2 ^ (s + 1) → r ≤ s
    ordered r s l u = elim (either r s) [
      | inl le ↦ le
      | inr lt ↦
          let p : 2 ^ (s + 1) ≤ 2 ^ r = pow-le-pow_right (omega arith) {i = s + 1} {j = r} lt in
          absurd (omega (arith, p, l, u))
    ]

-- The highest of `k + 1` bits.
halves_at : (k x : ℕ) → x < 2 ^ suc k → (bit k x ≡ 1) × (2 ^ k ≤ x) ⊎ (bit k x ≡ 0) × (x < 2 ^ k)
halves_at k x l = elim (ltb_or x (2 ^ k)) [
  | inl (_, below) ↦ inr (ap (λ (q : ℕ). q % 2) (div-eq_of_lt below), below)
  | inr (_, le) ↦
      let split : 1 * 2 ^ k + (x - 2 ^ k) ≡ x = omega (arith, le) in
      let one : x / 2 ^ k ≡ 1 =
        ap (λ (n : ℕ). n / 2 ^ k) (sym split)
        ∙ div_unique (2 ^ k) 1 (x - 2 ^ k) (omega (arith, l, pow-suc 2 k, le)) in
      inl (ap (λ (q : ℕ). q % 2) one, le)
]

one_bit : (k : ℕ) → k < 64 → shift_left 1 k ≡ 2 ^ k
one_bit k l =
    let top : 2 ^ k ≤ 2 ^ 63 = pow-le-pow_right (omega arith) {i = k} {j = 63} (omega (arith, l)) in
    omega (arith, top)

log_loop-HasHighest : (k x : ℕ) → k ≤ 64 → x ≢ 0 → x < 2 ^ k → HasHighest (log_loop k x) x
unfolding log_loop HasHighest
log_loop-HasHighest zero x lk nz l = absurd (omega (arith, nz, l))
log_loop-HasHighest (suc k) x lk nz l = elim (halves_at k x l) [
  | inl (set, above) ↦
      let e : bit_and x (shift_left 1 k) ≡ 2 ^ k =
        ap (bit_and x) (one_bit k (omega (arith, lk)))
        ∙ bit_and-power k x
        ∙ ap (λ (b : ℕ). b * 2 ^ k) set
        ∙ omega arith in
      let test : (bit_and x (shift_left 1 k) == 0) ≡ false =
        ==-apart (bit_and x (shift_left 1 k)) 0 (λ z. omega (arith, z, e, pow-pos k)) in
      rw test (above, ap_below k x l)
  | inr (unset, below) ↦
      let e : bit_and x (shift_left 1 k) ≡ 0 =
        ap (bit_and x) (one_bit k (omega (arith, lk)))
        ∙ bit_and-power k x
        ∙ ap (λ (b : ℕ). b * 2 ^ k) unset
        ∙ omega arith in
      rw e (log_loop-HasHighest k x (omega (arith, lk)) nz below)
]
  where
    ap_below : (k x : ℕ) → x < 2 ^ suc k → x < 2 ^ (k + 1)
    ap_below k x l = omega (arith, l, power_next k, pow-suc 2 k)

-- Whether a bit at the position `s` or above is set.
above :
    (x s : ℕ) → x < 2 ^ 64 → s < 64 → is_zero (is_zero (shift_right x s)) ≡ truth_of (leb (2 ^ s) x)
above x s lx ls = elim (Bool-cases (ltb x (2 ^ 63))) [
  | inl positive ↦ elim (ltb_or x (2 ^ s)) [
    | inl (_, below) ↦ rw (positive, div-eq_of_lt below, leb_none (2 ^ s) x below) refl
    | inr (_, le) ↦ rw (positive, ==-apart (x / 2 ^ s) 0 (some_part le), le→leb (2 ^ s) x le) refl
  ]
  | inr negative ↦
      let high : 2 ^ 63 ≤ x = ground (arith, negative) in
      let top : 2 ^ s ≤ 2 ^ 63 =
        pow-le-pow_right (omega arith) {i = s} {j = 63} (omega (arith, ls)) in
      let le : 2 ^ s ≤ x = omega (arith, top, high) in
      let nz : x / 2 ^ s + (2 ^ 64 - 2 ^ (64 - s)) ≢ 0 = λ z. some_part le (omega (arith, z)) in
      rw (negative, ==-apart (x / 2 ^ s + (2 ^ 64 - 2 ^ (64 - s))) 0 nz, le→leb (2 ^ s) x le) refl
]
  where
    some_part : 2 ^ s ≤ x → x / 2 ^ s ≢ 0
    some_part le z =
        let lt : x < 1 * 2 ^ s = (div-lt_iff_lt-mul (pow-pos s)).0 (omega (arith, z)) in
        omega (arith, lt, le)

-- The highest bit of `x` is among the `width` bits from the position `half`.
Narrowed : (x width half : ℕ) → Type 0
Narrowed x width half = (half + width ≤ 64) × (2 ^ half ≤ x) × (x < 2 ^ (half + width))

find_half-Narrowed :
    (k x half : ℕ)
    → x < 2 ^ 64
    → Narrowed x (2 ^ (k + 1)) half
    → Narrowed x (2 ^ k) (find_half (2 ^ k) k x half)
unfolding Narrowed find_half
find_half-Narrowed k x half lx (lh, l, u) =
    let p = power_next k in
    let small : 2 ^ k ≤ 32 = omega (arith, lh, p) in
    let sum : (half + 2 ^ k) % 2 ^ 64 ≡ half + 2 ^ k = omega (arith, lh, p) in
    let test = above x (half + 2 ^ k) lx (omega (arith, lh, p, pow-pos k)) in
    elim (ltb_or x (2 ^ (half + 2 ^ k))) [
      | inl (_, below) ↦
          let none : (half + 0 * 2 ^ k % 2 ^ 64) % 2 ^ 64 ≡ half = omega (arith, lh) in
          rw (sum, test, leb_none (2 ^ (half + 2 ^ k)) x below, none)
            (omega (arith, lh, p), l, below)
      | inr (_, le) ↦
          let more : (half + 1 * 2 ^ k % 2 ^ 64) % 2 ^ 64 ≡ half + 2 ^ k =
            omega (arith, lh, small) in
          let twice : half + 2 ^ (k + 1) ≡ half + 2 ^ k + 2 ^ k = omega (arith, p) in
          rw (sum, test, le→leb (2 ^ (half + 2 ^ k)) x le, more)
            (omega (arith, lh, p), le, subst (λ (n : ℕ). x < 2 ^ n) twice u)
    ]

first_half :
    (x : ℕ) → x ≢ 0 → x < 2 ^ 64 → Narrowed x 32 (truth_of (leb (2 ^ 32) x) * 2 ^ 5 % 2 ^ 64)
unfolding Narrowed
first_half x nz lx = elim (ltb_or x (2 ^ 32)) [
  | inl (_, below) ↦ rw (leb_none (2 ^ 32) x below) (omega arith, omega (arith, nz), below)
  | inr (_, le) ↦ rw (le→leb (2 ^ 32) x le) (omega arith, le, lx)
]

last_half : (x half : ℕ) → Narrowed x 1 half → HasHighest half x
unfolding Narrowed HasHighest
last_half x half (lh, l, u) = (l, u)

integer_log2-HasHighest : (x : ℕ) → x ≢ 0 → x < 2 ^ 64 → HasHighest (integer_log2 x) x
unfolding integer_log2
integer_log2-HasHighest x nz lx = rw (above x 32 lx (omega arith)) (
    last_half x _ (
      find_half-Narrowed 0 x _ lx (
        find_half-Narrowed 1 x _ lx (
          find_half-Narrowed 2 x _ lx
            (find_half-Narrowed 3 x _ lx (find_half-Narrowed 4 x _ lx (first_half x nz lx)))))))

integer_log2-test : (x : ℕ) → x ≢ 0 → x < 2 ^ 64 → integer_log2 x ≡ test_integer_log2 x
unfolding test_integer_log2
integer_log2-test x nz lx =
    highest_unique (integer_log2 x) (log_loop 64 x) x (integer_log2-HasHighest x nz lx)
      (log_loop-HasHighest 64 x (omega arith) nz lx)

-- On every word but 0, leastBitPos is the mask at which the loop of its reference stops, and integerLog2
-- the position at which the downward loop of its reference stops.
pub position_tests :
    (x : ℕ)
    → x ≢ 0
    → x < 2 ^ 64
    → (least_bit_pos x ≡ test_least_bit_pos x) × (integer_log2 x ≡ test_integer_log2 x)
position_tests x nz lx = (least_bit_pos-test x lx, integer_log2-test x nz lx)
