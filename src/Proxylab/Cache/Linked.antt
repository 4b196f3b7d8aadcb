-- ===== src/Proxylab/Cache/Linked.antt =====
-- What the list of nodes of proxylab/cache.c stands for: the blocks with their addresses, in order.
use introduction_to_computer.Common.{
  ℕ, ◌+◌, ◌≤◌, ◌≡◌, ◌≢◌, refl, Bool, true, false, ◌||◌, List, [], ◌∷◌, Option, some, none, ◌==◌,
  if◌then◌else◌, Text, arith, length, Memory, update, Bool-cases, inl, inr,
}
use introduction_to_computer.Proxylab.Cache.{Node, Cache, max_cache_size}

pub record Block : Type 0 where
  pub uri : Text
  pub obj : Text
  pub age : ℕ
  pub size : ℕ

abbrev pub Blocks : Type 0
Blocks = List (ℕ × Block)

abbrev pub node : ℕ → ℕ → Block → Node
node prev next b = record {
  prev = prev;
  next = next;
  uri = b.uri;
  obj = b.obj;
  age = b.age;
  size = b.size;
}

abbrev pub first : Blocks → ℕ
first [] = 0
first ((a, b) ∷ xs) = a

abbrev pub holds : ℕ → Blocks → Bool
holds p [] = false
holds p ((a, b) ∷ xs) = p == a || holds p xs

-- The nodes of `xs` stand in `m`, linked in order, with `prev` in front of the first.
abbrev pub Linked : Memory Node → ℕ → Blocks → Type 0
Linked m prev [] = Unit {0}
Linked m prev ((a, b) ∷ xs) =
    (m a ≡ some (node prev (first xs) b)) × (a ≢ 0) × (holds a xs ≡ false) × Linked m a xs

-- A change elsewhere leaves the nodes alone.
pub Linked-frame :
    (m m' : Memory Node) (prev : ℕ) (xs : Blocks)
    → Linked m prev xs
    → ((p : ℕ) → holds p xs ≡ true → m' p ≡ m p)
    → Linked m' prev xs
Linked-frame m m' prev [] l same = tt
Linked-frame m m' prev ((a, b) ∷ xs) (e, nz, new, l) same =
    (ground (arith, same a), nz, new, Linked-frame m m' a xs l (λ p h. same p (ground arith)))

pub Linked-update :
    (m : Memory Node) (prev : ℕ) (xs : Blocks) (p : ℕ) (c : Option Node)
    → Linked m prev xs
    → holds p xs ≡ false
    → Linked (update m p c) prev xs
Linked-update m prev xs p c l out = Linked-frame m (update m p c) prev xs l (λ q h. ground (arith))

abbrev pub block_at : ℕ → Blocks → Option Block
block_at p [] = none
block_at p ((a, b) ∷ xs) = if p == a then some b else block_at p xs

abbrev pub erase : ℕ → Blocks → Blocks
erase p [] = []
erase p ((a, b) ∷ xs) = let rest = erase p xs in if p == a then xs else (a, b) ∷ rest

abbrev pub total_size : Blocks → ℕ
total_size [] = 0
total_size ((a, b) ∷ xs) = b.size + total_size xs

-- Every block was used at the time `k` or later.
abbrev pub SinceAge : ℕ → Blocks → Type 0
SinceAge k [] = Unit {0}
SinceAge k ((a, b) ∷ xs) = (k ≤ b.age) × SinceAge k xs

pub holds-erase : (p q : ℕ) (xs : Blocks) → holds p xs ≡ false → holds p (erase q xs) ≡ false
holds-erase p q [] h = refl
holds-erase p q ((a, b) ∷ xs) h = ground (arith, holds-erase p q xs)

pub holds-erase_self :
    (m : Memory Node) (prev p : ℕ) (xs : Blocks) → Linked m prev xs → holds p (erase p xs) ≡ false
holds-erase_self m prev p [] l = refl
holds-erase_self m prev p ((a, b) ∷ xs) (e, nz, new, l) = elim (Bool-cases (p == a)) [
  | inl hit ↦ rw hit (let same : p ≡ a = ground arith in rw same new)
  | inr miss ↦ rw miss (rw miss (holds-erase_self m a p xs l))
]

pub total_size-erase :
    (p : ℕ) (xs : Blocks) (b : Block)
    → block_at p xs ≡ some b
    → total_size (erase p xs) + b.size ≡ total_size xs
total_size-erase p [] b h = cc
total_size-erase p ((a, c) ∷ xs) b h = ground (arith, total_size-erase p xs b)

pub length-erase :
    (p : ℕ) (xs : Blocks) (b : Block) → block_at p xs ≡ some b → length (erase p xs) + 1 ≡ length xs
length-erase p [] b h = cc
length-erase p ((a, c) ∷ xs) b h = ground (arith, length-erase p xs b)

-- The cache stands for the blocks `xs`.
pub record Stands (m : Memory Node) (cache : Cache) (xs : Blocks) : Type 0 where
  pub linked : Linked m 0 xs
  pub head : cache.head ≡ first xs
  pub space : cache.slots + total_size xs ≡ max_cache_size

pub holds-null : (m : Memory Node) (prev : ℕ) (xs : Blocks) → Linked m prev xs → holds 0 xs ≡ false
holds-null m prev [] l = refl
holds-null m prev ((a, b) ∷ xs) (e, nz, new, l) = ground (arith, holds-null m a xs l)

pub block_at-holds : (p : ℕ) (xs : Blocks) (b : Block) → block_at p xs ≡ some b → holds p xs ≡ true
block_at-holds p [] b h = cc
block_at-holds p ((a, c) ∷ xs) b h = ground (arith, block_at-holds p xs b)
