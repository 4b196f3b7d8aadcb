-- ===== src/Proxylab/Cache/Tests.antt =====
-- Runs of the model of proxylab/cache.c, and its theorems at concrete inputs.
use introduction_to_computer.Common.{
  ℕ, ◌+◌, ◌-◌, ◌≡◌, ◌≢◌, refl, sym, ap, false, [], ◌∷◌, some, none, arith, ◌==◌, if◌then◌else◌,
  Memory, Run, ended, endless,
}
use introduction_to_computer.Proxylab.Cache.{
  Node, Cache, init_cache, remove_from_cache, make_room, add_to_cache, max_cache_size,
}
use introduction_to_computer.Proxylab.Cache.Linked.{Block, Blocks, node, holds, Stands}
use introduction_to_computer.Proxylab.Cache.Remove.{remove_from_cache_lem}
use introduction_to_computer.Proxylab.Cache.Add.{
  add_to_cache_lem, Evicted, new_block, make_room_endless,
}

abbrev page : ℕ → ℕ → ℕ → Block
page c age size = record { uri = c ∷ []; obj = c ∷ c ∷ c ∷ []; age = age; size = size }

-- Two nodes, of which the second is the older one.
abbrev blocks : Blocks
blocks = (10, page b'a' 7 3) ∷ (20, page b'b' 4 2) ∷ []

abbrev memory : Memory Node
memory p =
    if p == 10
    then some (node 0 20 (page b'a' 7 3))
    else if p == 20
    then some (node 10 0 (page b'b' 4 2))
    else none

abbrev cache : Cache
cache = record { head = 10; slots = max_cache_size - 5 }

blocks-Stands : Stands memory cache blocks
blocks-Stands = record {
  linked = (refl, (λ e. cc e), refl, (refl, (λ e. cc e), refl, tt));
  head = refl;
  space = refl;
}

remove_from_cache_lem_example :
    (cache' : Cache) × (m' : Memory Node) × (remove_from_cache 3 cache 20 memory ≡ ended cache' m')
    × Stands m' cache' ((10, page b'a' 7 3) ∷ [])
    × (cache'.slots ≡ max_cache_size - 5 + 2)
    × (m' 20 ≡ none)
    × ((q : ℕ) → q ≢ 0 → holds q blocks ≡ false → m' q ≡ memory q)
remove_from_cache_lem_example =
    remove_from_cache_lem 3 memory cache blocks 20 (page b'b' 4 2) blocks-Stands refl (omega arith)

abbrev empty : Memory Node
empty p = none

empty-Stands : Stands empty init_cache []
unfolding init_cache
empty-Stands = record { linked = tt; head = refl; space = refl }

abbrev memory_of : Run Node Cache → Memory Node
memory_of (ended c m) = m
memory_of _ = empty

no_eviction :
    (c : Cache) (m1 : Memory Node) → make_room 1 1 3 init_cache empty ≡ ended c m1 → m1 30 ≡ none
unfolding make_room init_cache
no_eviction c m1 e = ap (λ r. memory_of r 30) (sym e)

add_to_cache_lem_example :
    (cache' : Cache) × (m' : Memory Node) × (ys : Blocks) × (add_to_cache 1 30 init_cache
        (b'c' ∷ [])
        (1 ∷ 2 ∷ 3 ∷ [])
        3
        1
        empty
      ≡ ended cache' m')
    × Evicted 3 [] ys
    × Stands m' cache' ((30, new_block (b'c' ∷ []) (1 ∷ 2 ∷ 3 ∷ []) 3 1) ∷ ys)
add_to_cache_lem_example =
    add_to_cache_lem 1 empty init_cache [] 30 (b'c' ∷ []) (1 ∷ 2 ∷ 3 ∷ []) 3 1 empty-Stands tt
      (omega arith) (omega arith) (λ e. cc e) no_eviction

make_room_endless_example : make_room 1 9 (max_cache_size + 1) init_cache empty ≡ endless
unfolding init_cache
make_room_endless_example =
    make_room_endless 1 9 empty init_cache [] (max_cache_size + 1) empty-Stands tt (omega arith)
      (omega arith)
