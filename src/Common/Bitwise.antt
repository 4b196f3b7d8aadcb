-- ===== src/Common/Bitwise.antt =====
-- The bits of a number, and what the native operations on bits make of them.
use Prim.Native.Nat.{
  ℕ, zero, suc, ◌+◌, ◌-◌, ◌*◌, ◌/◌, ◌%◌, ◌^◌, ◌≤◌, ◌<◌, min, max, differ, digits, bit_and, bit_or,
  bit_xor, bit_and-bitwise, bit_or-bitwise, bit_xor-bitwise,
}
use mathlib.Core.Path.{◌≡◌, refl, sym, ap, ◌∙◌}
use native.Mathlib.Omega.{arith}
use native.Mathlib.Nat.{div-add-mod', mod-lt, pow-suc, div-div-eq-div-mul, zero-div}
use introduction_to_computer.Common.Bits.{bit_or-add, pow-pos, bit_and-mask}

abbrev pub bit : ℕ → ℕ → ℕ
bit i x = x / 2 ^ i % 2

pub bit-suc : (i x : ℕ) → bit (suc i) x ≡ bit i (x / 2)
bit-suc i x =
    ap (λ (q : ℕ). q % 2)
      (ap (λ (p : ℕ). x / p) (omega (arith, pow-suc 2 i)) ∙ sym (div-div-eq-div-mul x 2 (2 ^ i)))

pub bit-below : (i x : ℕ) → bit i x < 2
bit-below i x = omega arith

-- Numbers of `n` bits with the same bits are equal.
pub bit-injective :
    (n a b : ℕ) → a < 2 ^ n → b < 2 ^ n → ((i : ℕ) → i < n → bit i a ≡ bit i b) → a ≡ b
bit-injective zero a b la lb e = omega (arith, la, lb)
bit-injective (suc n) a b la lb e =
    let p = pow-suc 2 n in
    let rest : a / 2 ≡ b / 2 =
      bit-injective n (a / 2) (b / 2) (omega (arith, p, la)) (omega (arith, p, lb))
        (λ i lt. sym (bit-suc i a) ∙ e (suc i) (omega arith) ∙ bit-suc i b) in
    let low : a / 1 % 2 ≡ b / 1 % 2 = e 0 (omega arith) in omega (arith, rest, low)

-- An operation that works digit by digit.
module _ (z : ℕ → ℕ) (f : ℕ → ℕ → ℕ) (at_zero : (b : ℕ) → z b ≡ z (b / 2) * 2 + f 0 (b % 2)) where
  fuel_free : (n m a b : ℕ) → a ≤ n → a ≤ m → digits z f n a b ≡ digits z f m a b
  fuel_free n m zero b l k = at_none n ∙ sym (at_none m)
    where
      at_none : (n : ℕ) → digits z f n 0 b ≡ z b
      at_none zero = refl
      at_none (suc n) = refl
  fuel_free zero m (suc a) b l k = absurd (omega arith)
  fuel_free (suc n) zero (suc a) b l k = absurd (omega arith)
  fuel_free (suc n) (suc m) (suc a) b l k =
      ap (λ (r : ℕ). r * 2 + f (suc a % 2) (b % 2))
        (fuel_free n m (suc a / 2) (b / 2) (omega arith) (omega arith))

  digitwise :
      (a b : ℕ) → digits z f a a b ≡ digits z f (a / 2) (a / 2) (b / 2) * 2 + f (a % 2) (b % 2)
  digitwise zero b = at_zero b
  digitwise (suc a) b =
      ap (λ (r : ℕ). r * 2 + f (suc a % 2) (b % 2))
        (fuel_free a (suc a / 2) (suc a / 2) (b / 2) (omega arith) (omega arith))

pub bit_and-digit : (a b : ℕ) → bit_and a b ≡ bit_and (a / 2) (b / 2) * 2 + min (a % 2) (b % 2)
bit_and-digit a b = simp bit_and-bitwise (digitwise (λ y. 0) min (λ y. omega arith) a b)

pub bit_or-digit : (a b : ℕ) → bit_or a b ≡ bit_or (a / 2) (b / 2) * 2 + max (a % 2) (b % 2)
bit_or-digit a b = simp bit_or-bitwise (digitwise (λ y. y) max (λ y. omega arith) a b)

pub bit_xor-digit : (a b : ℕ) → bit_xor a b ≡ bit_xor (a / 2) (b / 2) * 2 + differ (a % 2) (b % 2)
bit_xor-digit a b = simp bit_xor-bitwise (digitwise (λ y. y) differ (λ y. omega arith) a b)

-- Facts that hold of every such operation, for its function on two digits.
module _ (op f : ℕ → ℕ → ℕ)
    (digit : (a b : ℕ) → op a b ≡ op (a / 2) (b / 2) * 2 + f (a % 2) (b % 2))
    (small : (a b : ℕ) → a < 2 → b < 2 → f a b < 2) where
  halves : (a b : ℕ) → (op a b / 2 ≡ op (a / 2) (b / 2)) × (op a b % 2 ≡ f (a % 2) (b % 2))
  halves a b =
      let lt = small (a % 2) (b % 2) (omega arith) (omega arith) in
      (omega (arith, digit a b, lt), omega (arith, digit a b, lt))

  bit-op : (i a b : ℕ) → bit i (op a b) ≡ f (bit i a) (bit i b)
  bit-op zero a b =
      let ea : a / 2 ^ 0 ≡ a = omega arith in
      let eb : b / 2 ^ 0 ≡ b = omega arith in
      let e : op a b / 2 ^ 0 ≡ op a b = omega arith in rw (e, ea, eb) ((halves a b).1)
  bit-op (suc i) a b =
      rw (bit-suc i (op a b), bit-suc i a, bit-suc i b, (halves a b).0) (bit-op i (a / 2) (b / 2))

  op-below : op 0 0 ≡ 0 → (n a b : ℕ) → a < 2 ^ n → b < 2 ^ n → op a b < 2 ^ n
  op-below none zero a b la lb =
      let ea : a ≡ 0 = omega (arith, la) in
      let eb : b ≡ 0 = omega (arith, lb) in rw (ea, eb, none) (omega arith)
  op-below none (suc n) a b la lb =
      let p = pow-suc 2 n in
      let rest = op-below none n (a / 2) (b / 2) (omega (arith, p, la)) (omega (arith, p, lb)) in
      let lt = small (a % 2) (b % 2) (omega arith) (omega arith) in
      omega (arith, p, rest, lt, digit a b)

  -- On numbers of a high and a low field.
  op-fields :
      op 0 0 ≡ 0
      → (k a b c d : ℕ) → b < 2 ^ k
      → d < 2 ^ k
      → op (a * 2 ^ k + b) (c * 2 ^ k + d) ≡ op a c * 2 ^ k + op b d
  op-fields none zero a b c d lb ld =
      let eb : b ≡ 0 = omega (arith, lb) in
      let ed : d ≡ 0 = omega (arith, ld) in
      let ea : a * 2 ^ 0 + 0 ≡ a = omega arith in
      let ec : c * 2 ^ 0 + 0 ≡ c = omega arith in rw (eb, ed, ea, ec, none) (omega arith)
  op-fields none (suc k) a b c d lb ld =
      let p = pow-suc 2 k in
      let pa = ap (λ (q : ℕ). a * q) p in
      let pc = ap (λ (q : ℕ). c * q) p in
      let ha : (a * 2 ^ suc k + b) / 2 ≡ a * 2 ^ k + b / 2 = omega (arith, pa) in
      let hc : (c * 2 ^ suc k + d) / 2 ≡ c * 2 ^ k + d / 2 = omega (arith, pc) in
      let ra : (a * 2 ^ suc k + b) % 2 ≡ b % 2 = omega (arith, pa) in
      let rc : (c * 2 ^ suc k + d) % 2 ≡ d % 2 = omega (arith, pc) in
      let rest =
        op-fields none k a (b / 2) c (d / 2) (omega (arith, p, lb)) (omega (arith, p, ld)) in
      digit (a * 2 ^ suc k + b) (c * 2 ^ suc k + d)
      ∙ rw (ha, hc, ra, rc, rest) (omega (arith, digit b d, ap (λ (q : ℕ). op a c * q) p))

small_min : (a b : ℕ) → a < 2 → b < 2 → min a b < 2
small_min a b la lb = omega (arith, la, lb)

small_max : (a b : ℕ) → a < 2 → b < 2 → max a b < 2
small_max a b la lb = omega (arith, la, lb)

small_differ : (a b : ℕ) → a < 2 → b < 2 → differ a b < 2
small_differ zero b la lb = lb
small_differ (suc zero) zero la lb = omega arith
small_differ (suc zero) (suc b) la lb = omega (arith, lb)
small_differ (suc (suc a)) b la lb = absurd (omega (arith, la))

pub bit-and : (i a b : ℕ) → bit i (bit_and a b) ≡ min (bit i a) (bit i b)
bit-and = bit-op bit_and min bit_and-digit small_min

pub bit-or : (i a b : ℕ) → bit i (bit_or a b) ≡ max (bit i a) (bit i b)
bit-or = bit-op bit_or max bit_or-digit small_max

pub bit-xor : (i a b : ℕ) → bit i (bit_xor a b) ≡ differ (bit i a) (bit i b)
bit-xor = bit-op bit_xor differ bit_xor-digit small_differ

pub bit_and-below : (n a b : ℕ) → a < 2 ^ n → b < 2 ^ n → bit_and a b < 2 ^ n
bit_and-below = op-below bit_and min bit_and-digit small_min refl

pub bit_or-below : (n a b : ℕ) → a < 2 ^ n → b < 2 ^ n → bit_or a b < 2 ^ n
bit_or-below = op-below bit_or max bit_or-digit small_max refl

pub bit_xor-below : (n a b : ℕ) → a < 2 ^ n → b < 2 ^ n → bit_xor a b < 2 ^ n
bit_xor-below = op-below bit_xor differ bit_xor-digit small_differ refl

pub bit_and-fields :
    (k a b c d : ℕ)
    → b < 2 ^ k
    → d < 2 ^ k
    → bit_and (a * 2 ^ k + b) (c * 2 ^ k + d) ≡ bit_and a c * 2 ^ k + bit_and b d
bit_and-fields = op-fields bit_and min bit_and-digit small_min refl

pub bit_and-none : (a : ℕ) → bit_and a 0 ≡ 0
bit_and-none a = omega (arith, bit_and-mask 0 a)

pub bit_and-zero : (a : ℕ) → bit_and 0 a ≡ 0
bit_and-zero a = simp bit_and-bitwise refl

pub bit_and_comm : (a b : ℕ) → bit_and a b ≡ bit_and b a
bit_and_comm a b = bounded a a b (omega arith)
  where
    bounded : (n a b : ℕ) → a ≤ n → bit_and a b ≡ bit_and b a
    bounded zero a b l =
        let none : a ≡ 0 = omega (arith, l) in rw none (bit_and-zero b ∙ sym (bit_and-none b))
    bounded (suc n) a b l =
        let rest = bounded n (a / 2) (b / 2) (omega (arith, l)) in
        omega (arith, bit_and-digit a b, bit_and-digit b a, rest)

pub bit_or-zero : (a : ℕ) → bit_or 0 a ≡ a
bit_or-zero a = simp bit_or-bitwise refl

pub bit_or-none : (a : ℕ) → bit_or a 0 ≡ a
bit_or-none a =
    let e : a * 2 ^ 0 ≡ a = omega arith in
    ap (λ (b : ℕ). bit_or b 0) (sym e) ∙ bit_or-add 0 a 0 (omega arith) ∙ omega arith

pub bit_or_comm : (a b : ℕ) → bit_or a b ≡ bit_or b a
bit_or_comm a b = bounded a a b (omega arith)
  where
    bounded : (n a b : ℕ) → a ≤ n → bit_or a b ≡ bit_or b a
    bounded zero a b l =
        let none : a ≡ 0 = omega (arith, l) in rw none (bit_or-zero b ∙ sym (bit_or-none b))
    bounded (suc n) a b l =
        let rest = bounded n (a / 2) (b / 2) (omega (arith, l)) in
        omega (arith, bit_or-digit a b, bit_or-digit b a, rest)

-- A mask of `k` bits sees the `k` lowest bits.
pub bit_and-low : (k a m : ℕ) → m < 2 ^ k → bit_and a m ≡ bit_and (a % 2 ^ k) m
bit_and-low k a m l =
    let parts = div-add-mod' a (2 ^ k) in
    let none : 0 * 2 ^ k + m ≡ m = omega arith in
    ap (λ (b : ℕ). bit_and b m) (sym parts)
    ∙ ap (bit_and (a / 2 ^ k * 2 ^ k + a % 2 ^ k)) (sym none)
    ∙ bit_and-fields k (a / 2 ^ k) (a % 2 ^ k) 0 m (mod-lt a (pow-pos k)) l
    ∙ ap (λ (h : ℕ). h * 2 ^ k + bit_and (a % 2 ^ k) m) (bit_and-none (a / 2 ^ k))
    ∙ omega arith

pub bit_and-below_mask : (k a m : ℕ) → m < 2 ^ k → bit_and a m < 2 ^ k
bit_and-below_mask k a m l =
    rw (bit_and-low k a m l) (bit_and-below k (a % 2 ^ k) m (mod-lt a (pow-pos k)) l)

-- A mask of one bit.
pub bit_and-power : (i a : ℕ) → bit_and a (2 ^ i) ≡ bit i a * 2 ^ i
bit_and-power i a =
    let parts = div-add-mod' a (2 ^ i) in
    let one : 1 * 2 ^ i + 0 ≡ 2 ^ i = omega arith in
    ap (λ (b : ℕ). bit_and b (2 ^ i)) (sym parts)
    ∙ ap (bit_and (a / 2 ^ i * 2 ^ i + a % 2 ^ i)) (sym one)
    ∙ bit_and-fields i (a / 2 ^ i) (a % 2 ^ i) 1 0 (mod-lt a (pow-pos i)) (pow-pos i)
    ∙ rw (bit_and-none (a % 2 ^ i), bit_and-mask 1 (a / 2 ^ i)) (omega arith)

-- The complement among `n` bits.
pub bit-complement : (n i x : ℕ) → x < 2 ^ n → i < n → bit i (2 ^ n - 1 - x) ≡ 1 - bit i x
bit-complement zero i x lx li = absurd (omega (arith, li))
bit-complement (suc n) zero x lx li =
    let p = pow-suc 2 n in
    let positive = pow-pos n in
    let e : x / 2 ^ 0 ≡ x = omega arith in
    let e' : (2 ^ suc n - 1 - x) / 2 ^ 0 ≡ 2 ^ suc n - 1 - x = omega arith in
    rw (e, e') (omega (arith, p, lx, positive))
bit-complement (suc n) (suc i) x lx li =
    let p = pow-suc 2 n in
    let half : (2 ^ suc n - 1 - x) / 2 ≡ 2 ^ n - 1 - x / 2 = omega (arith, p, lx, pow-pos n) in
    bit-suc i (2 ^ suc n - 1 - x)
    ∙ ap (bit i) half
    ∙ bit-complement n i (x / 2) (omega (arith, p, lx)) (omega (arith, li))
    ∙ ap (λ (b : ℕ). 1 - b) (sym (bit-suc i x))

pub bit_and-complement : (n a : ℕ) → a < 2 ^ n → bit_and a (2 ^ n - 1 - a) ≡ 0
bit_and-complement n a l =
    bit-injective n (bit_and a (2 ^ n - 1 - a)) 0
      (bit_and-below n a (2 ^ n - 1 - a) l (omega (arith, l))) (pow-pos n)
      (λ i lt.
        bit-and i a (2 ^ n - 1 - a)
        ∙ ap (min (bit i a)) (bit-complement n i a l lt)
        ∙ meet (bit i a) (bit-below i a)
        ∙ sym (ap (λ (q : ℕ). q % 2) (zero-div (2 ^ i))))
  where
    meet : (d : ℕ) → d < 2 → min d (1 - d) ≡ 0
    meet d l = omega (arith, l)

-- Numbers whose bits do not differ.
pub bit_xor-zero : (n a b : ℕ) → a < 2 ^ n → b < 2 ^ n → bit_xor a b ≡ 0 → a ≡ b
bit_xor-zero n a b la lb e = bit-injective n a b la lb (λ i lt. same i)
  where
    same_digit : (x y : ℕ) → x < 2 → y < 2 → differ x y ≡ 0 → x ≡ y
    same_digit zero y lx ly d = sym d
    same_digit (suc zero) zero lx ly d = d
    same_digit (suc zero) (suc y) lx ly d = omega (arith, ly)
    same_digit (suc (suc x)) y lx ly d = absurd (omega (arith, lx))

    same : (i : ℕ) → bit i a ≡ bit i b
    same i =
        same_digit (bit i a) (bit i b) (bit-below i a) (bit-below i b)
          (sym (bit-xor i a b) ∙ ap (bit i) e ∙ ap (λ (q : ℕ). q % 2) (zero-div (2 ^ i)))

pub bit_xor_self : (n a : ℕ) → a < 2 ^ n → bit_xor a a ≡ 0
bit_xor_self zero a la = let e : a ≡ 0 = omega (arith, la) in rw e
bit_xor_self (suc n) a la = omega (
  arith,
  bit_xor-digit a a,
  bit_xor_self n (a / 2) (omega (arith, pow-suc 2 n, la)),
  same (a % 2) (omega arith),
)
  where
    same : (x : ℕ) → x < 2 → differ x x ≡ 0
    same zero l = refl
    same (suc zero) l = refl
    same (suc (suc x)) l = absurd (omega (arith, l))
