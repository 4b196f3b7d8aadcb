-- ===== src/Proxylab/Cache/Search.antt =====
-- The two walks of proxylab/cache.c that only read: search_cache and evict_age.
use introduction_to_computer.Common.{
  ℕ, zero, suc, ◌<◌, ◌≤◌, ◌≡◌, ◌⊎◌, inl, inr, refl, subst, true, false, [], ◌∷◌, some, ◌==◌, ltb,
  if◌then◌else◌, Text, same_text, arith, length, Memory, load-ended, ended, Bool-cases,
}
use introduction_to_computer.Proxylab.Cache.{
  Node, Cache, search_loop, search_cache, evict_loop, evict_age, min_age,
}
use introduction_to_computer.Proxylab.Cache.Linked.{
  Block, Blocks, node, first, holds, Linked, block_at, SinceAge, block_at-holds, Stands,
}

-- The address of the first block for a URI, or null.
abbrev pub find_uri : Text → Blocks → ℕ
find_uri uri [] = 0
find_uri uri ((a, b) ∷ xs) = if same_text b.uri uri then a else find_uri uri xs

search_loop-find_uri :
    (fuel : ℕ) (m : Memory Node) (prev : ℕ) (xs : Blocks) (uri : Text)
    → Linked m prev xs
    → length xs < fuel
    → search_loop fuel (first xs) uri m ≡ ended (find_uri uri xs) m
unfolding search_loop
search_loop-find_uri zero m prev xs uri l lt = absurd (omega arith)
search_loop-find_uri (suc fuel) m prev [] uri l lt = refl
search_loop-find_uri (suc fuel) m prev ((a, b) ∷ xs) uri (e, nz, new, l) lt =
    let z : (a == 0) ≡ false = ground arith in
    rw (z, load-ended m a (node prev (first xs) b) e nz)
      (elim (Bool-cases (same_text b.uri uri)) [
        | inl hit ↦ rw hit
        | inr miss ↦ rw miss (search_loop-find_uri fuel m a xs uri l (omega arith))
      ])

-- What the loop of `evict_age` computes.
abbrev pub least_used : Blocks → (currmin evict : ℕ) → ℕ
least_used [] currmin evict = evict
least_used ((a, b) ∷ xs) currmin evict =
    least_used xs (if ltb b.age currmin then b.age else currmin)
      (if ltb b.age currmin then a else evict)

evict_loop-least_used :
    (fuel : ℕ) (m : Memory Node) (prev : ℕ) (xs : Blocks) (currmin evict : ℕ)
    → Linked m prev xs
    → length xs < fuel
    → evict_loop fuel (first xs) currmin evict m ≡ ended (least_used xs currmin evict) m
unfolding evict_loop
evict_loop-least_used zero m prev xs currmin evict l lt = absurd (omega arith)
evict_loop-least_used (suc fuel) m prev [] currmin evict l lt = refl
evict_loop-least_used (suc fuel) m prev ((a, b) ∷ xs) currmin evict (e, nz, new, l) lt =
    let z : (a == 0) ≡ false = ground arith in
    rw (z, load-ended m a (node prev (first xs) b) e nz)
      (evict_loop-least_used fuel m a xs _ _ l (omega arith))

-- Nothing in the list is older than `currmin`, or the result is a block of the list that is, and
-- none is older than it.
abbrev pub Least : Blocks → (currmin evict result : ℕ) → Type 0
Least xs currmin evict result =
    ((result ≡ evict) × SinceAge currmin xs)
    ⊎ ((b : Block) × (block_at result xs ≡ some b) × (b.age < currmin) × SinceAge b.age xs)

SinceAge-mono : (k l : ℕ) (xs : Blocks) → l ≤ k → SinceAge k xs → SinceAge l xs
SinceAge-mono k l [] le h = tt
SinceAge-mono k l ((a, b) ∷ xs) le h = (omega (arith, h.0), SinceAge-mono k l xs le h.1)

block_at-later :
    (p a : ℕ) (b c : Block) (xs : Blocks)
    → holds a xs ≡ false
    → block_at p xs ≡ some b
    → block_at p ((a, c) ∷ xs) ≡ some b
block_at-later p a b c xs new h = ground (arith, block_at-holds p xs b)

least_used-less :
    (a : ℕ) (b : Block) (xs : Blocks) (currmin evict : ℕ)
    → ltb b.age currmin ≡ true
    → least_used xs b.age a ≡ least_used ((a, b) ∷ xs) currmin evict
least_used-less a b xs currmin evict less = rw less

least_used-not_less :
    (a : ℕ) (b : Block) (xs : Blocks) (currmin evict : ℕ)
    → ltb b.age currmin ≡ false
    → least_used xs currmin evict ≡ least_used ((a, b) ∷ xs) currmin evict
least_used-not_less a b xs currmin evict less = rw less

Least-less :
    (a : ℕ) (b : Block) (xs : Blocks) (currmin evict r : ℕ)
    → holds a xs ≡ false
    → b.age < currmin
    → Least xs b.age a r
    → Least ((a, b) ∷ xs) currmin evict r
Least-less a b xs currmin evict r new less (inl (same, since)) =
    inr (b, rw same (ground arith), less, (omega arith, since))
Least-less a b xs currmin evict r new less (inr (c, at, lt, since)) =
    inr (c, block_at-later r a c b xs new at, omega arith, (omega arith, since))

Least-not_less :
    (a : ℕ) (b : Block) (xs : Blocks) (currmin evict r : ℕ)
    → holds a xs ≡ false
    → currmin ≤ b.age
    → Least xs currmin evict r
    → Least ((a, b) ∷ xs) currmin evict r
Least-not_less a b xs currmin evict r new le (inl (same, since)) = inl (same, (le, since))
Least-not_less a b xs currmin evict r new le (inr (c, at, lt, since)) =
    inr (c, block_at-later r a c b xs new at, lt, (omega arith, since))

least_used-Least :
    (m : Memory Node) (prev : ℕ) (xs : Blocks) (currmin evict : ℕ)
    → Linked m prev xs
    → Least xs currmin evict (least_used xs currmin evict)
least_used-Least m prev [] currmin evict l = inl (refl, tt)
least_used-Least m prev ((a, b) ∷ xs) currmin evict (e, nz, new, l) =
    elim (Bool-cases (ltb b.age currmin)) [
      | inl less ↦
          subst (Least ((a, b) ∷ xs) currmin evict) (least_used-less a b xs currmin evict less) (
            Least-less a b xs currmin evict (least_used xs b.age a) new (ground arith)
              (least_used-Least m a xs b.age a l))
      | inr not_less ↦
          subst (Least ((a, b) ∷ xs) currmin evict)
            (least_used-not_less a b xs currmin evict not_less)
            (Least-not_less a b xs currmin evict (least_used xs currmin evict) new (ground arith)
              (least_used-Least m a xs currmin evict l))
    ]

-- `search_cache` on a cache that stands for a list of blocks, with more fuel than blocks: it
-- returns the address of the first block for the URI, or null if there is none, and changes
-- nothing.
pub search_cache_lem :
    (fuel : ℕ) (m : Memory Node) (cache : Cache) (xs : Blocks) (uri : Text)
    → Stands m cache xs
    → length xs < fuel
    → search_cache fuel cache uri m ≡ ended (find_uri uri xs) m
unfolding search_cache
search_cache_lem fuel m cache xs uri st lt =
    rw st.head (search_loop-find_uri fuel m 0 xs uri st.linked lt)

-- `evict_age` on such a cache changes nothing and returns a block of it, older than `MIN`, that no
-- other block was used before; or null, and then every block carries the time `MIN` or a later one.
pub evict_age_lem :
    (fuel : ℕ) (m : Memory Node) (cache : Cache) (xs : Blocks)
    → Stands m cache xs
    → length xs < fuel
    → (p : ℕ) × (evict_age fuel cache m ≡ ended p m)
      × (((p ≡ 0) × SinceAge min_age xs)
          ⊎ ((b : Block) × (block_at p xs ≡ some b) × (b.age < min_age) × SinceAge b.age xs))
unfolding evict_age
evict_age_lem fuel m cache xs st lt = (
  least_used xs min_age 0,
  rw st.head (evict_loop-least_used fuel m 0 xs min_age 0 st.linked lt),
  least_used-Least m 0 xs min_age 0 st.linked,
)
