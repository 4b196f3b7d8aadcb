-- ===== src/Proxylab/Cache/Add.antt =====
-- add_to_cache of proxylab/cache.c: blocks are evicted until the response fits, and it becomes the
-- first block.
use introduction_to_computer.Common.{
  ℕ, zero, suc, ◌+◌, ◌-◌, ◌<◌, ◌≤◌, ◌≡◌, ◌≢◌, inl, inr, refl, ◌∙◌, true, false, [], ◌∷◌, some, none,
  ◌==◌, ltb, arith, length, take, Text, Memory, endless, fill, ended, Bool-cases, update,
}
use introduction_to_computer.Proxylab.Cache.{
  Node, Cache, max_cache_size, min_age, make_room, insert_block, add_to_cache, size_sub,
}
use introduction_to_computer.Proxylab.Cache.Linked.{
  Block, Blocks, node, first, holds, Linked, Linked-frame, block_at, erase, holds-erase, total_size,
  length-erase, Stands, holds-null, block_at-holds, SinceAge,
}
use introduction_to_computer.Proxylab.Cache.Search.{evict_age_lem}
use introduction_to_computer.Proxylab.Cache.Remove.{remove_from_cache_lem}
use introduction_to_computer.Proxylab.Cache.Unlink.{set_prev-ended}

-- Every block was used before the time `MIN`, as the source assumes.
abbrev pub Young : Blocks → Type 0
Young [] = Unit {0}
Young ((a, b) ∷ xs) = (b.age < min_age) × Young xs

-- The blocks `ys` are left of `xs` by evictions of a least recently used block, none before there
-- is a need for it and none after there is room for `size` bytes.
pub data Evicted (size : ℕ) : Blocks → Blocks → Type 0 where
  enough : {xs : Blocks} → size + total_size xs ≤ max_cache_size → Evicted size xs xs
  oldest :
      {xs ys : Blocks} (p : ℕ) (b : Block)
      → max_cache_size < size + total_size xs
      → block_at p xs ≡ some b
      → SinceAge b.age xs
      → Evicted size (erase p xs) ys
      → Evicted size xs ys

pub Young-erase : (p : ℕ) (xs : Blocks) → Young xs → Young (erase p xs)
Young-erase p [] h = tt
Young-erase p ((a, b) ∷ xs) h = elim (Bool-cases (p == a)) [
  | inl e ↦ rw e (h.1)
  | inr e ↦ rw e (h.0, Young-erase p xs h.1)
]

-- An empty list leaves no need to evict, and a list with young blocks has one to evict.
none_to_evict :
    (xs : Blocks) (size slots : ℕ)
    → Young xs
    → SinceAge min_age xs
    → slots + total_size xs ≡ max_cache_size
    → size ≤ max_cache_size
    → slots < size
    → ⊥
none_to_evict [] size slots y since space small lt = omega arith
none_to_evict ((a, b) ∷ xs) size slots y since space small lt = omega (arith, y.0, since.0)

pub make_room_lem :
    (walk fuel : ℕ) (m : Memory Node) (cache : Cache) (xs : Blocks) (size : ℕ)
    → Stands m cache xs
    → Young xs
    → size ≤ max_cache_size
    → length xs < walk
    → length xs < fuel
    → (cache' : Cache) × (m' : Memory Node) × (ys : Blocks) × (make_room walk fuel size cache m
        ≡ ended cache' m')
      × Stands m' cache' ys
      × Evicted size xs ys
      × (size ≤ cache'.slots)
      × ((q : ℕ) → q ≢ 0 → holds q xs ≡ false → (m' q ≡ m q) × (holds q ys ≡ false))
unfolding make_room
make_room_lem walk zero m cache xs size st young small lw lf = absurd (omega arith)
make_room_lem walk (suc fuel) m cache xs size st young small lw lf =
    elim (Bool-cases (ltb cache.slots size)) [
      | inr room ↦
          let fits : size ≤ cache.slots = ground arith in
          (cache, m, xs, rw room, st, enough (omega (arith, st.space)), fits, λ q nz o. (refl, o))
      | inl need ↦
          let less : cache.slots < size = ground arith in
          let (p, found, which) = evict_age_lem walk m cache xs st lw in
          elim which [
            | inl (z, since) ↦
                absurd (none_to_evict xs size cache.slots young since st.space small less)
            | inr (b, at, lt, since) ↦
                let here : holds p xs ≡ true = block_at-holds p xs b at in
                let absent : holds 0 xs ≡ false = holds-null m 0 xs st.linked in
                let nz : (p == 0) ≡ false = not_null p xs here absent in
                let (c1, m1, run, st1, more, gone, same) =
                  remove_from_cache_lem walk m cache xs p b st at lw in
                let shorter = length-erase p xs b at in
                let (c2, m2, ys, run2, st2, ev, fits, same2) =
                  make_room_lem walk fuel m1 c1 (erase p xs) size st1 (Young-erase p xs young) small
                    (omega (arith, shorter)) (omega (arith, shorter)) in
                (
                  c2,
                  m2,
                  ys,
                  rw (need, found, nz, run) run2,
                  st2,
                  oldest p b (omega (arith, st.space)) at since ev,
                  fits,
                  λ q qnz o.
                      let (s, o') = same2 q qnz (holds-erase q p xs o) in (s ∙ same q qnz o, o'),
                )
          ]
    ]
  where
    not_null : (p : ℕ) (xs : Blocks) → holds p xs ≡ true → holds 0 xs ≡ false → (p == 0) ≡ false
    not_null zero xs h o = absurd (cc (h, o))
    not_null (suc p) xs h o = ground arith

holds_of_none :
    (m : Memory Node) (prev q : ℕ) (xs : Blocks)
    → Linked m prev xs
    → m q ≡ none
    → holds q xs ≡ false
holds_of_none m prev q [] l e = refl
holds_of_none m prev q ((a, b) ∷ xs) (ea, nz, new, l) e = ground (arith, holds_of_none m a q xs l e)

holds_apart : (p q : ℕ) (xs : Blocks) → holds p xs ≡ true → holds q xs ≡ false → (p == q) ≡ false
holds_apart p q xs h o = elim (Bool-cases (p == q)) [
  | inr e ↦ e
  | inl e ↦ let same : p ≡ q = ground arith in absurd (cc (h, o, same))
]

behind : (p y : ℕ) (d : Block) (zs : Blocks) → holds p ((y, d) ∷ zs) ≡ false → holds p zs ≡ false
behind p y d zs h = ground arith

abbrev pub new_block : (req_uri response : Text) → (size time : ℕ) → Block
new_block req_uri response size time = record {
  uri = req_uri;
  obj = take size response;
  age = time;
  size = size;
}

insert_block_lem :
    (m : Memory Node) (cache : Cache) (xs : Blocks) (elem : ℕ) (req_uri response : Text)
    (size time : ℕ)
    → Stands m cache xs
    → size ≤ cache.slots
    → elem ≢ 0
    → m elem ≡ none
    → (cache' : Cache) × (m' : Memory Node) × (insert_block elem cache req_uri response size time m
        ≡ ended cache' m')
      × Stands m' cache' ((elem, new_block req_uri response size time) ∷ xs)
unfolding insert_block fill
insert_block_lem m cache [] elem req_uri response size time st fits nz unused =
    let b = new_block req_uri response size time in
    let head : cache.head ≡ 0 = st.head in
    let slots : size_sub cache.slots size ≡ cache.slots - size = omega (arith, st.space) in
    (
      record { head = elem; slots = size_sub cache.slots size },
      update m elem (some (node 0 0 b)),
      rw head,
      record {
        linked = (ground arith, nz, refl, tt);
        head = refl;
        space = omega (arith, slots, st.space);
      },
    )
insert_block_lem m cache ((y, d) ∷ zs) elem req_uri response size time st fits nz unused =
    let b = new_block req_uri response size time in
    let (ey, nzy, newy, l) = st.linked in
    let absent : holds elem ((y, d) ∷ zs) ≡ false =
      holds_of_none m 0 elem ((y, d) ∷ zs) st.linked unused in
    let head : cache.head ≡ y = st.head in
    let zy : (y == 0) ≡ false = ground arith in
    let m1 : Memory Node = update m elem (some (node 0 y b)) in
    let m2 : Memory Node = update m1 y (some (node elem (first zs) d)) in
    let e1 : m1 y ≡ some (node 0 (first zs) d) = ground arith in
    let slots : size_sub cache.slots size ≡ cache.slots - size = omega (arith, st.space) in
    (
      record { head = elem; slots = size_sub cache.slots size },
      m2,
      rw (head, zy) (rw (set_prev-ended m1 y 0 (first zs) d e1 nzy elem)),
      record {
        linked = (
          ground arith,
          nz,
          absent,
          (ground arith, nzy, newy, Linked-frame m m2 y zs l (λ q h. spared q h)),
        );
        head = refl;
        space = omega (arith, slots, st.space);
      },
    )
  where
    spared :
        (q : ℕ)
        → holds q zs ≡ true
        → update
            (update m elem (some (node 0 y (new_block req_uri response size time))))
            y
            (some (node elem (first zs) d))
            q
          ≡ m q
    spared q h =
        let n1 : (q == y) ≡ false = holds_apart q y zs h (st.linked.2) in
        let n2 : (q == elem) ≡ false =
          holds_apart q elem zs h
            (behind elem y d zs (holds_of_none m 0 elem ((y, d) ∷ zs) st.linked unused)) in
        rw (n1, n2)

-- `add_to_cache` on a cache that stands for young blocks, for a response that is no longer than the
-- cache, with more fuel than blocks and an address from `Malloc` that is not in use: it ends, least
-- recently used blocks are evicted exactly until the response fits, and the cache stands for what
-- is left behind the new block, with its bytes counted.
pub add_to_cache_lem :
    (fuel : ℕ) (m : Memory Node) (cache : Cache) (xs : Blocks) (elem : ℕ) (req_uri response : Text)
    (size time : ℕ)
    → Stands m cache xs
    → Young xs
    → size ≤ max_cache_size
    → length xs < fuel
    → elem ≢ 0
    → ((c : Cache) (m1 : Memory Node)
        → make_room fuel fuel size cache m ≡ ended c m1
        → m1 elem ≡ none)
    → (cache' : Cache) × (m' : Memory Node) × (ys : Blocks) × (add_to_cache fuel elem cache req_uri
          response size time m
        ≡ ended cache' m')
      × Evicted size xs ys
      × Stands m' cache' ((elem, new_block req_uri response size time) ∷ ys)
unfolding add_to_cache
add_to_cache_lem fuel m cache xs elem req_uri response size time st young small lt nz unused =
    let (c1, m1, ys, run, st1, ev, fits, same) =
      make_room_lem fuel fuel m cache xs size st young small lt lt in
    let (c2, m2, run2, st2) =
      insert_block_lem m1 c1 ys elem req_uri response size time st1 fits nz (unused c1 m1 run) in
    (c2, m2, ys, rw run run2, ev, st2)

SinceAge-at :
    (k p : ℕ) (xs : Blocks) (b : Block) → SinceAge k xs → block_at p xs ≡ some b → k ≤ b.age
SinceAge-at k p [] b since at = absurd (cc at)
SinceAge-at k p ((a, c) ∷ xs) b since at = elim (Bool-cases (p == a)) [
  | inl e ↦ let same : c ≡ b = ground arith in rw (← same) since.0
  | inr e ↦ SinceAge-at k p xs b since.1 (ground arith)
]

-- If every block carries the time `MIN` or a later one and the response does not fit, the loop of
-- `add_to_cache` never ends, whatever its fuel: there is nothing that it evicts. An empty cache and
-- a response that is longer than the cache is one case of it.
pub make_room_endless :
    (walk fuel : ℕ) (m : Memory Node) (cache : Cache) (xs : Blocks) (size : ℕ)
    → Stands m cache xs
    → SinceAge min_age xs
    → cache.slots < size
    → length xs < walk
    → make_room walk fuel size cache m ≡ endless
unfolding make_room
make_room_endless walk zero m cache xs size st since less lw = refl
make_room_endless walk (suc fuel) m cache xs size st since less lw =
    let (p, found, which) = evict_age_lem walk m cache xs st lw in
    let need : ltb cache.slots size ≡ true = ground arith in
    elim which [
      | inl (z, _) ↦
          rw (need, found, z) (make_room_endless walk fuel m cache xs size st since less lw)
      | inr (b, at, lt, _) ↦ absurd (omega (arith, SinceAge-at min_age p xs b since at))
    ]
