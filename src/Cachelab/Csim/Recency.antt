-- ===== src/Cachelab/Csim/Recency.antt =====
-- Lists of lines in the order of their last use: what the ideal cache of `Ideal` does to them.
use introduction_to_computer.Common.{
  ℕ, zero, suc, ◌+◌, ◌≤◌, ◌<◌, ◌≡◌, refl, ap, ◌⊎◌, inl, inr, none, some, [], ◌∷◌, arith, length,
  get_or, take, ◌==◌, Bool-cases, if◌then◌else◌,
}
use introduction_to_computer.Cachelab.Csim.{CacheSet, SetLine, empty_line}
use introduction_to_computer.Cachelab.Csim.Lines.{Used, find, remove, find-get_or}

-- The recency order: the counters fall strictly, from below `m`.
abbrev pub Falling : ℕ → CacheSet → Type 0
Falling m [] = Unit {0}
Falling m (l ∷ ls) = (l.lru < m) × Falling l.lru ls

pub Falling-mono : (m n : ℕ) (ls : CacheSet) → m ≤ n → Falling m ls → Falling n ls
Falling-mono m n [] h f = tt
Falling-mono m n (l ∷ ls) h f = (omega arith, f.1)

pub Falling-lru-lt :
    (m t : ℕ) (ls : CacheSet) (l : SetLine) → Falling m ls → find t ls ≡ some l → l.lru < m
unfolding find
Falling-lru-lt m t [] l f h = cc
Falling-lru-lt m t (x ∷ ls) l f h = ground (arith, Falling-lru-lt x.lru t ls l)

pub Falling-remove : (m t : ℕ) (ls : CacheSet) → Falling m ls → Falling m (remove t ls)
unfolding remove
Falling-remove m t [] f = tt
Falling-remove m t (x ∷ ls) f = elim (Bool-cases (x.tag == t)) [
  | inl here ↦ rw here (Falling-mono x.lru m ls (omega arith) f.1)
  | inr later ↦ rw later (f.0, Falling-remove x.lru t ls f.1)
]

pub Falling-take : (m n : ℕ) (ls : CacheSet) → Falling m ls → Falling m (take n ls)
Falling-take m zero ls f = tt
Falling-take m (suc n) [] f = tt
Falling-take m (suc n) (x ∷ ls) f = (f.0, Falling-take x.lru n ls f.1)

lru-get_or-lt :
    (m k : ℕ) (ls : CacheSet) → Falling m ls → k < length ls → (get_or ls k empty_line).lru < m
lru-get_or-lt m k [] f lt = absurd (omega arith)
lru-get_or-lt m zero (x ∷ ls) f lt = f.0
lru-get_or-lt m (suc k) (x ∷ ls) f lt = omega (arith, lru-get_or-lt x.lru k ls f.1 (omega arith))

-- In the recency order the last line is the only one with the least counter.
pub last_least :
    (m n t : ℕ) (ls : CacheSet) (l : SetLine)
    → Falling m ls
    → length ls ≡ suc n
    → find t ls ≡ some l
    → (l ≡ get_or ls n empty_line) ⊎ ((get_or ls n empty_line).lru < l.lru)
unfolding find
last_least m n t [] l f e h = cc
last_least m zero t (x ∷ []) l f e h = ground arith
last_least m zero t (x ∷ y ∷ ls) l f e h = absurd (omega arith)
last_least m (suc n) t (x ∷ []) l f e h = absurd (omega arith)
last_least m (suc n) t (x ∷ y ∷ ls) l f e h = elim (Bool-cases (x.tag == t)) [
  | inl here ↦
      let same : x ≡ l = ground arith in
      rw (← same) (inr (lru-get_or-lt x.lru n (y ∷ ls) f.1 (omega arith)))
  | inr later ↦ last_least x.lru n t (y ∷ ls) l f.1 (omega arith) (ground arith)
]

pub find-remove :
    (t j : ℕ) (ls : CacheSet)
    → Used ls
    → find j (remove t ls) ≡ (if t == j then none else find j ls)
unfolding find remove
find-remove t j [] u = ground arith
find-remove t j (x ∷ ls) u = ground (arith, find-remove t j ls)

pub Used-remove : (t : ℕ) (ls : CacheSet) → Used ls → Used (remove t ls)
unfolding remove
Used-remove t [] u = tt
Used-remove t (x ∷ ls) u = elim (Bool-cases (x.tag == t)) [
  | inl here ↦ rw here u.2
  | inr later ↦ rw later (u.0, ground (arith, find-remove t x.tag ls), Used-remove t ls u.2)
]

pub remove_absent : (t : ℕ) (ls : CacheSet) → find t ls ≡ none → remove t ls ≡ ls
unfolding find remove
remove_absent t [] h = refl
remove_absent t (x ∷ ls) h = ground (arith, remove_absent t ls)

pub length-remove :
    (t : ℕ) (ls : CacheSet) (l : SetLine)
    → find t ls ≡ some l
    → length (remove t ls) + 1 ≡ length ls
unfolding find remove
length-remove t [] l h = cc
length-remove t (x ∷ ls) l h = ground (arith, length-remove t ls l)

pub take_of_length-le : (n : ℕ) (ls : CacheSet) → length ls ≤ n → take n ls ≡ ls
take_of_length-le zero [] h = refl
take_of_length-le zero (x ∷ ls) h = absurd (omega arith)
take_of_length-le (suc n) [] h = refl
take_of_length-le (suc n) (x ∷ ls) h = ap (◌∷◌ x) (take_of_length-le n ls (omega arith))

-- To drop the last line hides its tag alone.
pub find-take :
    (j n : ℕ) (ls : CacheSet)
    → Used ls
    → length ls ≡ suc n
    → find j (take n ls) ≡ (if (get_or ls n empty_line).tag == j then none else find j ls)
unfolding find
find-take j n [] u e = absurd (omega arith)
find-take j zero (x ∷ []) u e = ground arith
find-take j zero (x ∷ y ∷ ls) u e = absurd (omega arith)
find-take j (suc n) (x ∷ ls) u e = ground (arith, find-take j n ls, find-get_or n ls)

pub Used-take : (n : ℕ) (ls : CacheSet) → Used ls → length ls ≡ suc n → Used (take n ls)
unfolding find
Used-take zero ls u e = tt
Used-take (suc n) [] u e = tt
Used-take (suc n) (x ∷ ls) u e =
    (u.0, ground (arith, find-take x.tag n ls, find-get_or n ls), Used-take n ls u.2 (omega arith))
