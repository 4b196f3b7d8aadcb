-- ===== src/Common/Heap.antt =====
-- A heap of C structs of one type, and code that reads and writes it. A pointer is the number of a
-- cell, and 0 the null pointer.
use Prim.Native.Nat.{ℕ}
use mathlib.Core.Path.{◌≡◌}
use mathlib.Core.Logic.{◌≢◌}
use mathlib.Core.Option.{Option, none, some}
use mathlib.Core.Bool.{true, false}
use native.Mathlib.Omega.{arith}
use introduction_to_computer.Common.Tests.{◌==◌, if◌then◌else◌}

-- `none` is a cell that is not allocated.
abbrev pub Memory : Type 0 → Type 0
Memory T = ℕ → Option T

-- How code ends: with a value, by a read or write through a null or dangling pointer, or not
-- within its fuel.
pub data Run (T : Type 0) (A : Type 0) : Type 0 where
  ended : A → Memory T → Run T A
  fault : Run T A
  endless : Run T A

abbrev pub Code : Type 0 → Type 0 → Type 0
Code T A = Memory T → Run T A

abbrev pub update : {T : Type 0} → Memory T → ℕ → Option T → Memory T
update m p c q = if q == p then c else m q

module _ {T : Type 0} where
  abbrev pub give : {A : Type 0} → A → Code T A
  give a m = ended a m

  abbrev pub follow : {A B : Type 0} → Run T A → (A → Code T B) → Run T B
  follow (ended a m) k = k a m
  follow fault k = fault
  follow endless k = endless

  -- `*p`
  unfoldable pub load : ℕ → Code T T
  load p m = if p == 0 then fault else elim (m p) [ none ↦ fault | some c ↦ ended c m ]

  -- `*p = c`
  unfoldable pub store : ℕ → T → Code T (Unit {0})
  store p c m =
      if p == 0
      then fault
      else elim (m p) [ none ↦ fault | some old ↦ ended tt (update m p (some c)) ]

  -- `malloc`, which returned `p`, and the writes to all fields of the struct
  unfoldable pub fill : ℕ → T → Code T (Unit {0})
  fill p c m = ended tt (update m p (some c))

  unfoldable pub release : ℕ → Code T (Unit {0})
  release p m =
      if p == 0 then fault else elim (m p) [ none ↦ fault | some c ↦ ended tt (update m p none) ]

  module _ (m : Memory T) (p : ℕ) (c : T) (e : m p ≡ some c) (nonnull : p ≢ 0) where
    pub load-ended : load p m ≡ ended c m
    unfolding load
    load-ended = let z : (p == 0) ≡ false = ground arith in rw (z, e)

    pub store-ended : (c' : T) → store p c' m ≡ ended tt (update m p (some c'))
    unfolding store
    store-ended c' = let z : (p == 0) ≡ false = ground arith in rw (z, e)

    pub release-ended : release p m ≡ ended tt (update m p none)
    unfolding release
    release-ended = let z : (p == 0) ≡ false = ground arith in rw (z, e)

pub update_self : {T : Type 0} (m : Memory T) (p : ℕ) (c : Option T) → update m p c p ≡ c
update_self m p c = ground arith

pub update_other :
    {T : Type 0} (m : Memory T) (p q : ℕ) (c : Option T) → q ≢ p → update m p c q ≡ m q
update_other m p q c ne = ground arith

pub ==-apart : (p q : ℕ) → p ≢ q → (p == q) ≡ false
==-apart p q ne = ground arith

pub ==-same : (p q : ℕ) → (p == q) ≡ true → p ≡ q
==-same p q h = ground arith

pub ==-differ : (p q : ℕ) → (p == q) ≡ false → p ≢ q
==-differ p q h = ground arith

-- Nothing is read through a null or a dangling pointer.
pub load-fault : {T : Type 0} (m : Memory T) (p : ℕ) → m p ≡ none → load p m ≡ fault
unfolding load
load-fault m p e = rw e (ground arith)

infixl 5 ◌>>=◌ ◌>>◌
abbrev pub ◌>>=◌ : {T A B : Type 0} → Code T A → (A → Code T B) → Code T B
◌>>=◌ c k m = follow (c m) k

abbrev pub ◌>>◌ : {T B : Type 0} → Code T (Unit {0}) → Code T B → Code T B
c >> k = c >>= λ _. k
