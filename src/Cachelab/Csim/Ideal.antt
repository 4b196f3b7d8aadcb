-- ===== src/Cachelab/Csim/Ideal.antt =====
-- What cachelab/csim.c is to compute: an ideal cache, which keeps each set as the list of its
-- blocks with the most recently used first, and has no clock, no line numbers and no free lines.
use introduction_to_computer.Common.{
  ℕ, ◌+◌, ◌-◌, ◌/◌, ◌%◌, ◌^◌, List, [], ◌∷◌, Option, none, some, Bool, true, false, ◌||◌, ltb, ◌==◌,
  if◌then◌else◌, get_or, length, take, zero, suc,
}
use introduction_to_computer.Cachelab.Csim.{Summary}

-- A block that a set holds: its tag, and whether it is dirty.
abbrev pub Block : Type 0
Block = ℕ × Bool

unfoldable pub lookup : ℕ → List Block → Option Bool
lookup t [] = none
lookup t ((u, dirty) ∷ blocks) = if u == t then some dirty else lookup t blocks

unfoldable pub remove : ℕ → List Block → List Block
remove t [] = []
remove t ((u, dirty) ∷ blocks) = if u == t then blocks else (u, dirty) ∷ remove t blocks

pub record Stats : Type 0 where
  pub hits : ℕ
  pub misses : ℕ
  pub evicts : ℕ
  pub dirty_evicted : ℕ

-- An access to the block `t` of a set with `e` lines. A hit moves the block to the front, a miss
-- puts it there; if the set was full, the last block goes, and is written back if it is dirty.
unfoldable pub access : (e block_size t : ℕ) → Bool → Stats → List Block → Stats × List Block
unfolding lookup remove
access e block_size t store stats blocks = elim (lookup t blocks) [
  | some dirty ↦ (record stats { hits = stats.hits + 1 }, (t, store || dirty) ∷ remove t blocks)
  | none ↦
      if ltb (length blocks) e
      then (record stats { misses = stats.misses + 1 }, (t, store) ∷ blocks)
      else (
        record stats {
          misses = stats.misses + 1;
          evicts = stats.evicts + 1;
          dirty_evicted =
              if (get_or blocks (e - 1) (0, false)).1
              then stats.dirty_evicted + block_size
              else stats.dirty_evicted;
        },
        (t, store) ∷ take (e - 1) blocks,
      )
]

-- The whole cache: the blocks of each set.
abbrev pub Sets : Type 0
Sets = ℕ → List Block

unfoldable pub access_address : (e s b : ℕ) → (addr : ℕ) → Bool → Stats × Sets → Stats × Sets
unfolding access
access_address e s b addr store (stats, sets) =
    let block = addr / 2 ^ b in
    let i = block % 2 ^ s in
    let (stats', blocks) = access e (2 ^ b) (block / 2 ^ s) store stats (sets i) in
    (stats', λ j. if j == i then blocks else sets j)

-- A trace of loads and stores; `none` at any other instruction.
unfoldable pub ideal : (e s b : ℕ) → List (ℕ × ℕ) → Stats × Sets → Option (Stats × Sets)
unfolding access_address
ideal e s b [] st = some st
ideal e s b ((instr, addr) ∷ trace) st =
    let loaded = ideal e s b trace (access_address e s b addr false st) in
    let stored = ideal e s b trace (access_address e s b addr true st) in
    if instr == b'L' then loaded else if instr == b'S' then stored else none

-- The dirty bytes of one set, and of the `n` sets from `i` on.
unfoldable pub dirty_bytes : ℕ → List Block → ℕ
dirty_bytes block_size [] = 0
dirty_bytes block_size ((t, dirty) ∷ blocks) =
    (if dirty then block_size else 0) + dirty_bytes block_size blocks

unfoldable pub dirty_from : ℕ → Sets → ℕ → ℕ → ℕ
unfolding dirty_bytes
dirty_from block_size sets i zero = 0
dirty_from block_size sets i (suc n) =
    dirty_bytes block_size (sets i) + dirty_from block_size sets (i + 1) n

unfoldable pub ideal_csim : (s e b : ℕ) → List (ℕ × ℕ) → Option Summary
unfolding ideal dirty_from
ideal_csim s e b trace =
    elim (ideal e s b trace
      (record { hits = 0; misses = 0; evicts = 0; dirty_evicted = 0 }, λ _. [])) [
        | none ↦ none
        | some (stats, sets) ↦ some (record {
          hits = stats.hits;
          misses = stats.misses;
          evicts = stats.evicts;
          dirty_bytes = dirty_from (2 ^ b) sets 0 (2 ^ s);
          dirty_evicted = stats.dirty_evicted;
        })
      ]
