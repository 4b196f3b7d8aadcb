-- ===== src/Proxylab/Cache/Remove.antt =====
-- remove_from_cache of proxylab/cache.c: the walk to the node that is unlinked.
use introduction_to_computer.Common.{
  ℕ, zero, suc, ◌+◌, ◌<◌, ◌≡◌, ◌≢◌, inl, inr, refl, ap, ◌∙◌, true, false, [], ◌∷◌, some, none, ◌==◌,
  arith, length, Memory, load-ended, ended, Bool-cases,
}
use introduction_to_computer.Proxylab.Cache.{Node, Cache, remove_loop, remove_from_cache}
use introduction_to_computer.Proxylab.Cache.Linked.{
  Block, Blocks, node, first, holds, Linked, block_at, erase, holds-erase, total_size-erase, Stands,
  holds-null, block_at-holds,
}
use introduction_to_computer.Proxylab.Cache.Unlink.{Removed, take_out-Removed}

outside :
    (q a : ℕ) (b : Block) (xs : Blocks)
    → holds q ((a, b) ∷ xs) ≡ false
    → (q ≢ a) × (holds q xs ≡ false)
outside q a b xs h = (ground arith, ground arith)

-- The case of a node further behind.
Removed-later :
    (m : Memory Node) (p a prev pp : ℕ) (b pb : Block) (ys : Blocks) (c c' : Cache)
    (m' : Memory Node)
    → Linked m prev ((a, b) ∷ ys)
    → (prev ≢ 0 → m prev ≡ some (node pp a pb))
    → holds prev ((a, b) ∷ ys) ≡ false
    → (prev ≡ 0 → c.head ≡ a)
    → (p == a) ≡ false
    → Removed m p a prev b ys c c' m'
    → Removed m p prev pp pb ((a, b) ∷ ys) c c' m'
Removed-later m p a prev pp b pb ys c c' m' (e, nz, new, l) before out at_head miss r =
    let za : (a == 0) ≡ false = ground arith in
    let kept : c'.head ≡ c.head = rw za at r.head in
    let (ne, o) = outside prev a b ys out in
    record {
      linked = rw miss (r.before nz, nz, holds-erase a p ys new, r.linked);
      before = λ pnz. rw miss (r.same prev o ne ∙ before pnz);
      same = λ q o' ne'. r.same q (outside q a b ys o').1 (outside q a b ys o').0;
      gone = r.gone;
      head = elim (Bool-cases (prev == 0)) [
        | inl z ↦ rw (z, miss) (kept ∙ at_head (ground arith))
        | inr z ↦ rw z kept
      ];
      slots = λ d at. r.slots d (ground arith);
    }

remove_loop-Removed :
    (fuel : ℕ) (m : Memory Node) (c : Cache) (p prev pp : ℕ) (pb : Block) (xs : Blocks)
    → Linked m prev xs
    → (prev ≢ 0 → m prev ≡ some (node pp (first xs) pb))
    → holds prev xs ≡ false
    → (prev ≡ 0 → c.head ≡ first xs)
    → holds p xs ≡ true
    → length xs < fuel
    → (c' : Cache) × (m' : Memory Node) × (remove_loop fuel c (first xs) p m ≡ ended c' m')
      × Removed m p prev pp pb xs c c' m'
unfolding remove_loop
remove_loop-Removed zero m c p prev pp pb xs l before out at_head here lt = absurd (omega arith)
remove_loop-Removed (suc fuel) m c p prev pp pb [] l before out at_head here lt = absurd (cc here)
remove_loop-Removed (suc fuel) m c p prev pp pb ((a, b) ∷ ys) (e, nz, new, l) before out at_head
      here lt =
    let z : (a == 0) ≡ false = ground arith in
    let n = node prev (first ys) b in
    elim (Bool-cases (a == p)) [
      | inl hit ↦
          let same : p ≡ a = ground arith in
          let (c', m', run, r) = take_out-Removed m c a prev pp b pb ys e nz new l before out in
          (c', m', rw (z, load-ended m a n e nz, hit) run, rw same r)
      | inr miss ↦
          let (c', m', run, r) =
            remove_loop-Removed fuel m c p a prev b ys l (λ y. e) new (λ y. absurd (nz y))
              (ground arith) (omega arith) in
          (
            c',
            m',
            rw (z, load-ended m a n e nz, miss) run,
            Removed-later m p a prev pp b pb ys c c' m' (e, nz, new, l) before out at_head
                (ground arith) r,
          )
    ]

-- `remove_from_cache` for a node of a cache that stands for some blocks, with more fuel than
-- blocks: it ends, the cache stands for the other blocks in their order, the node is freed, its
-- bytes are counted as empty again, and no memory outside of the list changes.
pub remove_from_cache_lem :
    (fuel : ℕ) (m : Memory Node) (cache : Cache) (xs : Blocks) (p : ℕ) (b : Block)
    → Stands m cache xs
    → block_at p xs ≡ some b
    → length xs < fuel
    → (cache' : Cache) × (m' : Memory Node) × (remove_from_cache fuel cache p m ≡ ended cache' m')
      × Stands m' cache' (erase p xs)
      × (cache'.slots ≡ cache.slots + b.size)
      × (m' p ≡ none)
      × ((q : ℕ) → q ≢ 0 → holds q xs ≡ false → m' q ≡ m q)
unfolding remove_from_cache
remove_from_cache_lem fuel m cache xs p b st at lt =
    let (cache', m', run, r) =
      remove_loop-Removed fuel m cache p 0 0 b xs st.linked (λ z. absurd (z refl))
        (holds-null m 0 xs st.linked) (λ z. st.head) (block_at-holds p xs b at) lt in
    let total = total_size-erase p xs b at in
    let slots : cache'.slots ≡ cache.slots + b.size =
      r.slots b at ∙ omega (arith, st.space, total) in
    (
      cache',
      m',
      ap (λ s. remove_loop fuel cache s p m) st.head ∙ run,
      record { linked = r.linked; head = r.head; space = omega (arith, st.space, total, slots) },
      slots,
      r.gone,
      λ q nz out. r.same q out nz,
    )
