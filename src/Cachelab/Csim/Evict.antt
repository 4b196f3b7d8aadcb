-- ===== src/Cachelab/Csim/Evict.antt =====
-- `evict` of cachelab/csim.c finds a line whose LRU counter is the least of its set.
use introduction_to_computer.Common.{
  ℕ, suc, ◌+◌, ◌≤◌, ◌<◌, ◌≡◌, refl, ◌⊎◌, inl, inr, [], ◌∷◌, arith, length, get_or, ltb, Bool-cases,
  subst,
}
use introduction_to_computer.Cachelab.Csim.{
  CacheSet, SetLine, empty_line, min_lru, evict_loop, evict,
}

-- No line of the set has a counter below `m`.
abbrev pub Least : ℕ → CacheSet → Type 0
Least m [] = Unit {0}
Least m (l ∷ ls) = (m ≤ l.lru) × Least m ls

pub Least-trans : (m n : ℕ) (ls : CacheSet) → m ≤ n → Least n ls → Least m ls
Least-trans m n [] h least = tt
Least-trans m n (l ∷ ls) h least = (omega arith, Least-trans m n ls h least.1)

-- The result of the loop: the line found before it, or a line of the rest that is least.
abbrev Found : (i min min_index r : ℕ) → CacheSet → Type 0
Found i min min_index r ls =
    ((r ≡ min_index) × Least min ls)
    ⊎ ((k : ℕ) × (r ≡ i + k)
        × (k < length ls)
        × ((get_or ls k empty_line).lru < min)
        × Least (get_or ls k empty_line).lru ls)

Found-here :
    (i min min_index r : ℕ) (l : SetLine) (ls : CacheSet)
    → l.lru < min
    → Found (i + 1) l.lru i r ls
    → Found i min min_index r (l ∷ ls)
Found-here i min min_index r l ls h (inl (e, least)) =
    inr (0, omega arith, omega arith, h, (omega arith, least))
Found-here i min min_index r l ls h (inr (k, e, lt, below, least)) =
    inr (suc k, omega arith, omega arith, omega arith, (omega arith, least))

Found-later :
    (i min min_index r : ℕ) (l : SetLine) (ls : CacheSet)
    → min ≤ l.lru
    → Found (i + 1) min min_index r ls
    → Found i min min_index r (l ∷ ls)
Found-later i min min_index r l ls h (inl (e, least)) = inl (e, (h, least))
Found-later i min min_index r l ls h (inr (k, e, lt, below, least)) =
    inr (suc k, omega arith, omega arith, below, (omega arith, least))

evict_loop-Found :
    (i min min_index : ℕ) (ls : CacheSet) → Found i min min_index (evict_loop i min min_index ls) ls
unfolding evict_loop
evict_loop-Found i min min_index [] = inl (refl, tt)
evict_loop-Found i min min_index (l ∷ ls) = elim (Bool-cases (ltb l.lru min)) [
  | inl yes' ↦
      rw yes'
        (Found-here i min min_index _ l ls (ground arith) (evict_loop-Found (i + 1) l.lru i ls))
  | inr no' ↦ rw no' (
      Found-later i min min_index _ l ls (ground arith) (evict_loop-Found (i + 1) min min_index ls))
]

evict_of_Found :
    (r : ℕ) (l : SetLine) (ls : CacheSet)
    → l.lru < min_lru
    → Found 0 min_lru 0 r (l ∷ ls)
    → (r < length (l ∷ ls)) × Least (get_or (l ∷ ls) r empty_line).lru (l ∷ ls)
evict_of_Found r l ls h (inl (e, least)) = absurd (omega arith)
evict_of_Found r l ls h (inr (k, e, lt, below, least)) =
    let same : k ≡ r = omega arith in
    subst (λ x. (x < length (l ∷ ls)) × Least (get_or (l ∷ ls) x empty_line).lru (l ∷ ls)) same
      (lt, least)

-- If the first line's counter is below `MIN`, `evict` returns the index of a line of the set
-- whose counter is the least of all: the least recently used one.
pub evict-Least :
    (l : SetLine) (ls : CacheSet)
    → l.lru < min_lru
    → (evict (l ∷ ls) < length (l ∷ ls))
      × Least (get_or (l ∷ ls) (evict (l ∷ ls)) empty_line).lru (l ∷ ls)
unfolding evict
evict-Least l ls h = evict_of_Found _ l ls h (evict_loop-Found 0 min_lru 0 (l ∷ ls))
