-- ===== src/Common/Bits.antt =====
-- The masks of C code: `x & (2 ^ k - 1)` keeps the low `k` bits of `x`.
use Prim.Native.Nat.{
  ◌∣◌, ℕ, zero, suc, ◌+◌, ◌-◌, ◌*◌, ◌/◌, ◌%◌, ◌^◌, ◌≤◌, ◌<◌, min, max, bit_or, bit_or-bitwise,
  bit_and, digits, bit_and-bitwise,
}
use mathlib.Core.Path.{◌≡◌, refl, sym, ap, ◌∙◌}
use native.Mathlib.Omega.{arith}
use native.Mathlib.Nat.{
  pow-suc, add-zero, add-suc, dvd-mul_right, div-add-mod', mod-lt, mod-eq_of_lt, zero-div,
  div-div-eq-div-mul,
}

pub pow-pos : (k : ℕ) → 0 < 2 ^ k
pow-pos zero = omega arith
pow-pos (suc k) = omega (arith, pow-suc 2 k, pow-pos k)

pub pow-add : (a b : ℕ) → 2 ^ (a + b) ≡ 2 ^ a * 2 ^ b
pow-add a zero = rw add-zero (omega arith)
pow-add a (suc b) =
    rw (add-suc, pow-suc 2 (a + b), pow-add a b)
      (omega (arith, ap (λ (n : ℕ). 2 ^ a * n) (pow-suc 2 b)))

pub pow-dvd-pow : (a b : ℕ) → a ≤ b → 2 ^ a ∣ 2 ^ b
pow-dvd-pow a b h =
    let e : b ≡ a + (b - a) = omega arith in rw (e, pow-add) (dvd-mul_right (2 ^ a) (2 ^ (b - a)))

-- The two parts of a division determine it.
pub mod_unique : (p q r : ℕ) → r < p → (q * p + r) % p ≡ r
mod_unique p q r h = grind arith

pub div_unique : (p q r : ℕ) → r < p → (q * p + r) / p ≡ q
div_unique p q r h = grind arith

pub mod-double : (a p : ℕ) → 0 < p → a % (p * 2) ≡ a / 2 % p * 2 + a % 2
mod-double a p h =
    let q = a / 2 / p in
    let r = a / 2 % p in
    let e : a ≡ q * (p * 2) + (r * 2 + a % 2) = omega (arith, div-add-mod' (a / 2) p) in
    ap (λ n. n % (p * 2)) e ∙ mod_unique (p * 2) q (r * 2 + a % 2) (omega (arith, mod-lt (a / 2) h))

half_mask : (k : ℕ) → ((2 ^ suc k - 1) / 2 ≡ 2 ^ k - 1) × ((2 ^ suc k - 1) % 2 ≡ 1)
half_mask k = (omega (arith, pow-suc 2 k, pow-pos k), omega (arith, pow-suc 2 k, pow-pos k))

-- The digits that a mask of `k` ones leaves, with fuel `n` for them.
low_digits : (k n a : ℕ) → a ≤ n → digits (λ (b : ℕ). zero) min n a (2 ^ k - 1) ≡ a % 2 ^ k
low_digits k zero zero le = sym (mod-eq_of_lt (pow-pos k))
low_digits k zero (suc a) le = absurd (omega arith)
low_digits k (suc n) zero le = sym (mod-eq_of_lt (pow-pos k))
low_digits zero (suc n) (suc a) le = omega (arith, low_digits zero n (suc a / 2) (omega arith))
low_digits (suc k) (suc n) (suc a) le =
    let rest = low_digits k n (suc a / 2) (omega arith) in
    rw ((half_mask k).0, (half_mask k).1, rest, pow-suc)
      (omega (arith, mod-double (suc a) (2 ^ k) (pow-pos k)))

-- A mask of `k` ones.
pub bit_and-mask : (k a : ℕ) → bit_and a (2 ^ k - 1) ≡ a % 2 ^ k
bit_and-mask k a = bit_and-bitwise a (2 ^ k - 1) ∙ low_digits k a a (omega arith)

half_pow : (k : ℕ) → (2 ^ suc k / 2 ≡ 2 ^ k) × (2 ^ suc k % 2 ≡ 0)
half_pow k = (omega (arith, pow-suc 2 k), omega (arith, pow-suc 2 k))

zero_and : (k : ℕ) → 0 / 2 ^ k % 2 * 2 ^ k ≡ 0
zero_and k = rw (zero-div (2 ^ k)) (omega arith)

one_digit : (k n a : ℕ) → a ≤ n → digits (λ (b : ℕ). zero) min n a (2 ^ k) ≡ a / 2 ^ k % 2 * 2 ^ k
one_digit k zero zero le = sym (zero_and k)
one_digit k zero (suc a) le = absurd (omega arith)
one_digit k (suc n) zero le = sym (zero_and k)
one_digit zero (suc n) (suc a) le = omega (arith, low_digits zero n (suc a / 2) (omega arith))
one_digit (suc k) (suc n) (suc a) le =
    let rest = one_digit k n (suc a / 2) (omega arith) in
    let q : suc a / 2 / 2 ^ k ≡ suc a / 2 ^ suc k =
      div-div-eq-div-mul (suc a) 2 (2 ^ k)
      ∙ ap (λ (p : ℕ). suc a / p) (omega (arith, pow-suc 2 k)) in
    let bit = suc a / 2 ^ suc k % 2 in
    rw ((half_pow k).0, (half_pow k).1, rest, q)
      (omega (arith, ap (λ (p : ℕ). bit * p) (pow-suc 2 k)))

-- A mask of one bit.
pub bit_and-one : (k a : ℕ) → bit_and a (2 ^ k) ≡ a / 2 ^ k % 2 * 2 ^ k
bit_and-one k a = bit_and-bitwise a (2 ^ k) ∙ one_digit k a a (omega arith)

or_digits :
    (k n x a b : ℕ) → x ≡ a * 2 ^ k → x ≤ n → b < 2 ^ k → digits (λ (b : ℕ). b) max n x b ≡ x + b
or_digits k zero zero a b e le lt = omega arith
or_digits k zero (suc x) a b e le lt = absurd (omega arith)
or_digits k (suc n) zero a b e le lt = omega arith
or_digits zero (suc n) (suc x) a b e le lt = omega (
  arith,
  or_digits zero n (suc x / 2) (suc x / 2) (b / 2) (omega arith) (omega arith) (omega arith),
)
or_digits (suc k) (suc n) (suc x) a b e le lt =
    let p = pow-suc 2 k in
    let ap_p = ap (λ (n : ℕ). a * n) p in
    omega (
      arith,
      e,
      ap_p,
      or_digits k n (suc x / 2) a (b / 2) (omega (arith, e, ap_p)) (omega arith)
          (omega (arith, p, lt)),
    )

-- Bits that do not overlap are added.
pub bit_or-add : (k a b : ℕ) → b < 2 ^ k → bit_or (a * 2 ^ k) b ≡ a * 2 ^ k + b
bit_or-add k a b lt =
    bit_or-bitwise (a * 2 ^ k) b ∙ or_digits k (a * 2 ^ k) (a * 2 ^ k) a b refl (omega arith) lt
