-- ===== src/Cachelab/Csim/Lines.antt =====
-- The lines of a set in cachelab/csim.c by their tags: what a search finds, and how a replacement,
-- an insertion and the removal of a line change that.
use introduction_to_computer.Common.{
  ℕ, zero, suc, ◌+◌, ◌<◌, ◌≡◌, refl, ap, inl, inr, Option, none, some, [], ◌∷◌, ◌++◌, arith, length,
  get_or, set, ◌==◌, Bool-cases, if◌then◌else◌,
}
use introduction_to_computer.Cachelab.Csim.{CacheSet, SetLine, empty_line, hit, search_lines}

unfoldable pub find : ℕ → CacheSet → Option SetLine
find t [] = none
find t (l ∷ ls) = if l.tag == t then some l else find t ls

-- Every line is in use, and no two have one tag.
abbrev pub Used : CacheSet → Type 0
Used [] = Unit {0}
Used (l ∷ ls) = (l.valid ≡ 1) × (find l.tag ls ≡ none) × Used ls

-- The line with the tag is replaced.
unfoldable pub update : ℕ → SetLine → CacheSet → CacheSet
update t x [] = []
update t x (l ∷ ls) = if l.tag == t then x ∷ ls else l ∷ update t x ls

unfoldable pub remove : ℕ → CacheSet → CacheSet
remove t [] = []
remove t (l ∷ ls) = if l.tag == t then ls else l ∷ remove t ls

pub find-tag : (t : ℕ) (ls : CacheSet) (l : SetLine) → find t ls ≡ some l → l.tag ≡ t
unfolding find
find-tag t [] l h = cc
find-tag t (x ∷ ls) l h = ground (arith, find-tag t ls l)

pub find-valid : (t : ℕ) (ls : CacheSet) (l : SetLine) → Used ls → find t ls ≡ some l → l.valid ≡ 1
unfolding find
find-valid t [] l u h = cc
find-valid t (x ∷ ls) l u h = ground (arith, find-valid t ls l)

pub find-update :
    (t j : ℕ) (x : SetLine) (ls : CacheSet) (l : SetLine)
    → x.tag ≡ t
    → find t ls ≡ some l
    → find j (update t x ls) ≡ (if t == j then some x else find j ls)
unfolding find update
find-update t j x [] l e h = cc
find-update t j x (y ∷ ls) l e h = ground (arith, find-update t j x ls l)

pub Used-update :
    (t : ℕ) (x : SetLine) (ls : CacheSet) (l : SetLine)
    → x.tag ≡ t
    → x.valid ≡ 1
    → Used ls
    → find t ls ≡ some l
    → Used (update t x ls)
unfolding find update
Used-update t x [] l e v u h = tt
Used-update t x (y ∷ ls) l e v u h = elim (Bool-cases (y.tag == t)) [
  | inl here ↦ rw here (v, ground arith, u.2)
  | inr later ↦
      rw later (
        u.0,
        ground (arith, find-update t y.tag x ls l),
        Used-update t x ls l e v u.2 (ground arith),
      )
]

pub length-update : (t : ℕ) (x : SetLine) (ls : CacheSet) → length (update t x ls) ≡ length ls
unfolding update
length-update t x [] = refl
length-update t x (y ∷ ls) = ground (arith, length-update t x ls)

pub find-append :
    (j : ℕ) (x : SetLine) (ls : CacheSet)
    → find x.tag ls ≡ none
    → find j (ls ++ x ∷ []) ≡ (if x.tag == j then some x else find j ls)
unfolding find
find-append j x [] h = refl
find-append j x (y ∷ ls) h = ground (arith, find-append j x ls)

pub Used-append :
    (x : SetLine) (ls : CacheSet)
    → x.valid ≡ 1
    → Used ls
    → find x.tag ls ≡ none
    → Used (ls ++ x ∷ [])
unfolding find
Used-append x [] v u h = (v, refl, tt)
Used-append x (y ∷ ls) v u h =
    (u.0, ground (arith, find-append y.tag x ls), Used-append x ls v u.2 (ground arith))

-- The line at an index is found by its tag.
pub find-get_or :
    (k : ℕ) (ls : CacheSet)
    → Used ls
    → k < length ls
    → find (get_or ls k empty_line).tag ls ≡ some (get_or ls k empty_line)
unfolding find
find-get_or k [] u lt = absurd (omega arith)
find-get_or zero (y ∷ ls) u lt = ground arith
find-get_or (suc k) (y ∷ ls) u lt = ground (arith, find-get_or k ls)

-- A line is replaced by one with a tag that is new to the set.
pub find-set :
    (j k : ℕ) (x : SetLine) (ls : CacheSet)
    → Used ls
    → k < length ls
    → find x.tag ls ≡ none
    → find j (set ls k x) ≡ (
        if x.tag == j
        then some x
        else if (get_or ls k empty_line).tag == j
        then none
        else find j ls)
unfolding find
find-set j k x [] u lt h = absurd (omega arith)
find-set j zero x (y ∷ ls) u lt h = ground arith
find-set j (suc k) x (y ∷ ls) u lt h = ground (arith, find-set j k x ls, find-get_or k ls)

pub Used-set :
    (k : ℕ) (x : SetLine) (ls : CacheSet)
    → x.valid ≡ 1
    → Used ls
    → k < length ls
    → find x.tag ls ≡ none
    → Used (set ls k x)
unfolding find
Used-set k x [] v u lt h = tt
Used-set zero x (y ∷ ls) v u lt h = (v, ground arith, u.2)
Used-set (suc k) x (y ∷ ls) v u lt h = (
  u.0,
  ground (arith, find-set y.tag k x ls, find-get_or k ls),
  Used-set k x ls v u.2 (omega arith) (ground arith),
)

-- What the search of `run` finds in a set whose used lines stand in front.
pub search_hit :
    (i t : ℕ) (ls rest : CacheSet) (l : SetLine)
    → Used ls
    → find t ls ≡ some l
    → (k : ℕ) × (search_lines i t (ls ++ rest) ≡ hit (i + k))
      × (get_or (ls ++ rest) k empty_line ≡ l)
      × ((x : SetLine) → set (ls ++ rest) k x ≡ update t x ls ++ rest)
unfolding find search_lines update
search_hit i t [] rest l u h = absurd (ground arith)
search_hit i t (y ∷ ls) rest l u h = elim (Bool-cases (y.tag == t)) [
  | inl here ↦ (0, ground arith, ground arith, λ x. rw here)
  | inr later ↦
      let (k, found, got, put) = search_hit (i + 1) t ls rest l u.2 (ground arith) in
      (suc k, ground arith, got, λ x. rw (later, put x))
]

pub search_miss :
    (i t : ℕ) (ls rest : CacheSet)
    → Used ls
    → find t ls ≡ none
    → search_lines i t (ls ++ rest) ≡ search_lines (i + length ls) t rest
unfolding find search_lines
search_miss i t [] rest u h = ground arith
search_miss i t (y ∷ ls) rest u h =
    let e : i + suc (length ls) ≡ i + 1 + length ls = omega arith in
    rw e (ground (arith, search_miss (i + 1) t ls rest))

pub set-append :
    (x y : SetLine) (ls rest : CacheSet)
    → set (ls ++ y ∷ rest) (length ls) x ≡ (ls ++ x ∷ []) ++ rest
set-append x y [] rest = refl
set-append x y (z ∷ ls) rest = ap (◌∷◌ z) (set-append x y ls rest)
