-- ===== src/Proxylab/Cache/Free.antt =====
-- read_response and free_cache of proxylab/cache.c.
use introduction_to_computer.Common.{
  ℕ, zero, suc, ◌<◌, ◌≡◌, ◌≢◌, refl, ap, sym, true, false, [], ◌∷◌, some, none, ◌==◌, if◌then◌else◌,
  arith, length, take, Memory, load-ended, store-ended, release-ended, ended, update, Bool-cases,
  inl, inr, ◌∙◌,
}
use introduction_to_computer.Proxylab.Cache.{Node, Cache, read_response, free_loop, free_cache}
use introduction_to_computer.Proxylab.Cache.Linked.{
  Block, Blocks, node, first, holds, Linked, Linked-update, block_at, Stands, total_size,
}

-- The blocks with one of them used at `time`.
abbrev pub used_at : ℕ → ℕ → Blocks → Blocks
used_at p time [] = []
used_at p time ((a, b) ∷ xs) =
    let rest = used_at p time xs in
    if p == a then (a, record b { age = time }) ∷ xs else (a, b) ∷ rest

holds-used_at : (q p time : ℕ) (xs : Blocks) → holds q (used_at p time xs) ≡ holds q xs
holds-used_at q p time [] = refl
holds-used_at q p time ((a, b) ∷ xs) = ground (arith, holds-used_at q p time xs)

first-used_at : (p time : ℕ) (xs : Blocks) → first (used_at p time xs) ≡ first xs
first-used_at p time [] = refl
first-used_at p time ((a, b) ∷ xs) = ground arith

total_size-used_at : (p time : ℕ) (xs : Blocks) → total_size (used_at p time xs) ≡ total_size xs
total_size-used_at p time [] = refl
total_size-used_at p time ((a, b) ∷ xs) = ground (arith, total_size-used_at p time xs)

-- Reading the response at an address in the list.
Linked-used_at :
    (m : Memory Node) (prev p time : ℕ) (xs : Blocks) (b : Block)
    → Linked m prev xs
    → block_at p xs ≡ some b
    → (q r : ℕ) × (m p ≡ some (node q r b))
      × (p ≢ 0)
      × Linked (update m p (some (node q r (record b { age = time })))) prev (used_at p time xs)
Linked-used_at m prev p time [] b l at = absurd (cc at)
Linked-used_at m prev p time ((a, c) ∷ xs) b (e, nz, new, l) at = elim (Bool-cases (p == a)) [
  | inl hit ↦
      let same : p ≡ a = ground arith in
      let self : (a == p) ≡ true = ground arith in
      let same_b : c ≡ b = ground arith in
      (
        prev,
        first xs,
        rw (same, ← same_b) e,
        rw same nz,
        rw hit (
          rw self (
              ap (λ (x : Block). some (node prev (first xs) (record x { age = time })))
                (sym same_b)),
          nz,
          new,
          Linked-update m a xs p _ l (rw same new),
        ),
      )
  | inr miss ↦
      let apart : (a == p) ≡ false = ground arith in
      let (q, r, e', nz', l') = Linked-used_at m a p time xs b l (ground arith) in
      (
        q,
        r,
        e',
        nz',
        rw miss (rw (apart, first-used_at p time xs) e, nz, holds-used_at a p time xs ∙ new, l'),
      )
]

-- `read_response` for a block of a cache that stands for some blocks: it returns the size of the
-- block and as many bytes of its object, the block counts as used at the given time, and the cache
-- still stands for the same blocks otherwise.
pub read_response_lem :
    (m : Memory Node) (cache : Cache) (xs : Blocks) (p time : ℕ) (b : Block)
    → Stands m cache xs
    → block_at p xs ≡ some b
    → (m' : Memory Node) × (read_response p time m ≡ ended (b.size, take b.size b.obj) m')
      × Stands m' cache (used_at p time xs)
unfolding read_response
read_response_lem m cache xs p time b st at =
    let (q, r, e, nz, l) = Linked-used_at m 0 p time xs b st.linked at in
    let n' = node q r (record b { age = time }) in
    (
      update m p (some n'),
      rw (load-ended m p (node q r b) e nz, store-ended m p (node q r b) e nz n'),
      record {
        linked = l;
        head = st.head ∙ sym (first-used_at p time xs);
        space = omega (arith, st.space, total_size-used_at p time xs);
      },
    )

free_loop-freed :
    (fuel : ℕ) (m : Memory Node) (prev : ℕ) (xs : Blocks)
    → Linked m prev xs
    → length xs < fuel
    → (m' : Memory Node) × (free_loop fuel (first xs) m ≡ ended tt m')
      × ((q : ℕ) → m' q ≡ (if holds q xs then none else m q))
unfolding free_loop
free_loop-freed zero m prev xs l lt = absurd (omega arith)
free_loop-freed (suc fuel) m prev [] l lt = (m, refl, λ q. refl)
free_loop-freed (suc fuel) m prev ((a, b) ∷ xs) (e, nz, new, l) lt =
    let z : (a == 0) ≡ false = ground arith in
    let m1 : Memory Node = update m a none in
    let n = node prev (first xs) b in
    let (m', run, freed) =
      free_loop-freed fuel m1 a xs (Linked-update m a xs a none l new) (omega arith) in
    (m', rw (z, load-ended m a n e nz, release-ended m a n e nz) run, λ q. freed q ∙ ground arith)

-- `free_cache` on a cache that stands for some blocks, with more fuel than blocks: it ends, every
-- node of the list is freed, and no other memory changes.
pub free_cache_lem :
    (fuel : ℕ) (m : Memory Node) (cache : Cache) (xs : Blocks)
    → Stands m cache xs
    → length xs < fuel
    → (m' : Memory Node) × (free_cache fuel cache m ≡ ended tt m')
      × ((q : ℕ) → m' q ≡ (if holds q xs then none else m q))
unfolding free_cache
free_cache_lem fuel m cache xs st lt =
    let (m', run, freed) = free_loop-freed fuel m 0 xs st.linked lt in
    (m', ap (λ s. free_loop fuel s m) st.head ∙ run, freed)
