-- ===== src/Malloclab/Bytes.antt =====
-- Bytes that are written and read in malloclab/mm-naive.c.
use introduction_to_computer.Common.{
  ℕ, zero, suc, ◌≡◌, ◌≢◌, ◌∙◌, ◌⊎◌, ◌<◌, ◌≤◌, ◌+◌, ◌/◌, ◌%◌, ◌^◌, inl, inr, refl, ap, arith,
  ==-apart,
}
use native.Mathlib.Nat.{pow-suc}
use introduction_to_computer.Malloclab.{set_byte, store_number, load_number, memcpy, memset}

set_byte_self : (a v : ℕ) (m : ℕ → ℕ) → set_byte a v m a ≡ v
set_byte_self a v m = ground arith

pub set_byte_other : (a v q : ℕ) (m : ℕ → ℕ) → q ≢ a → set_byte a v m q ≡ m q
set_byte_other a v q m ne = rw (==-apart q a ne) refl

pub store_number-outside :
    (n a v q : ℕ) (m : ℕ → ℕ) → (q < a) ⊎ (a + n ≤ q) → store_number n a v m q ≡ m q
unfolding store_number
store_number-outside zero a v q m o = refl
store_number-outside (suc n) a v q m o =
    store_number-outside n (a + 1) (v / 256) q (set_byte a (v % 256) m) (omega (arith, o))
    ∙ set_byte_other a (v % 256) q m (omega (arith, o))

pub load_number-same :
    (n a : ℕ) (m m' : ℕ → ℕ)
    → ((q : ℕ) → a ≤ q → q < a + n → m q ≡ m' q)
    → load_number n a m ≡ load_number n a m'
unfolding load_number
load_number-same zero a m m' e = refl
load_number-same (suc n) a m m' e =
    let first = e a (omega arith) (omega arith) in
    let rest =
      load_number-same n (a + 1) m m' (λ q l u. e q (omega (arith, l)) (omega (arith, u))) in
    omega (arith, first, rest)

-- A number that was stored is loaded again.
pub load_number-store :
    (n a v : ℕ) (m : ℕ → ℕ) → v < 256 ^ n → load_number n a (store_number n a v m) ≡ v
unfolding load_number store_number
load_number-store zero a v m l = omega (arith, l)
load_number-store (suc n) a v m l =
    let first =
      store_number-outside n (a + 1) (v / 256) a (set_byte a (v % 256) m) (inl (omega arith))
      ∙ set_byte_self a (v % 256) m in
    let rest =
      load_number-store n (a + 1) (v / 256) (set_byte a (v % 256) m)
        (omega (arith, l, pow-suc 256 n)) in
    omega (arith, first, rest)

pub memcpy-outside :
    (n dst src q : ℕ) (m : ℕ → ℕ) → (q < dst) ⊎ (dst + n ≤ q) → memcpy n dst src m q ≡ m q
unfolding memcpy
memcpy-outside zero dst src q m o = refl
memcpy-outside (suc n) dst src q m o =
    memcpy-outside n (dst + 1) (src + 1) q (set_byte dst (m src) m) (omega (arith, o))
    ∙ set_byte_other dst (m src) q m (omega (arith, o))

-- The source lies below the destination.
pub memcpy-copied :
    (n dst src i : ℕ) (m : ℕ → ℕ)
    → src + n ≤ dst
    → i < n
    → memcpy n dst src m (dst + i) ≡ m (src + i)
unfolding memcpy
memcpy-copied zero dst src i m l li = absurd (omega (arith, li))
memcpy-copied (suc n) dst src zero m l li =
    ap (memcpy n (dst + 1) (src + 1) (set_byte dst (m src) m)) {x = dst + 0} {y = dst} (omega arith)
    ∙ memcpy-outside n (dst + 1) (src + 1) dst (set_byte dst (m src) m) (inl (omega arith))
    ∙ set_byte_self dst (m src) m
    ∙ ap m {x = src} {y = src + 0} (omega arith)
memcpy-copied (suc n) dst src (suc i) m l li =
    ap (memcpy n (dst + 1) (src + 1) (set_byte dst (m src) m)) {x = dst + suc i} {y = dst + 1 + i}
      (omega arith)
    ∙ memcpy-copied n (dst + 1) (src + 1) i (set_byte dst (m src) m) (omega (arith, l))
        (omega (arith, li))
    ∙ set_byte_other dst (m src) (src + 1 + i) m (omega (arith, l, li))
    ∙ ap m {x = src + 1 + i} {y = src + suc i} (omega arith)

pub memset-outside :
    (n dst v q : ℕ) (m : ℕ → ℕ) → (q < dst) ⊎ (dst + n ≤ q) → memset n dst v m q ≡ m q
unfolding memset
memset-outside zero dst v q m o = refl
memset-outside (suc n) dst v q m o =
    memset-outside n (dst + 1) v q (set_byte dst v m) (omega (arith, o))
    ∙ set_byte_other dst v q m (omega (arith, o))

pub memset-inside : (n dst v q : ℕ) (m : ℕ → ℕ) → dst ≤ q → q < dst + n → memset n dst v m q ≡ v
unfolding memset
memset-inside zero dst v q m l u = absurd (omega (arith, l, u))
memset-inside (suc n) dst v q m l u = elim (at q dst l) [
  | inl here ↦
      memset-outside n (dst + 1) v q (set_byte dst v m) (inl (omega (arith, here)))
      ∙ ap (set_byte dst v m) here
      ∙ set_byte_self dst v m
  | inr later ↦ memset-inside n (dst + 1) v q (set_byte dst v m) later (omega (arith, u))
]
  where
    at : (q dst : ℕ) → dst ≤ q → (q ≡ dst) ⊎ (dst + 1 ≤ q)
    at q dst l = omega (arith, l)
