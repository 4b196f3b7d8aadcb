-- ===== src/Cachelab/Csim.antt =====
-- cachelab/csim.c: a simulator of a set-associative cache with write-back and an LRU policy.
-- A set is the list of its lines, a cache the list of its sets; addresses and tags are `unsigned
-- long`. The `int` fields of a cache are natural numbers, and so are the counters: `csim` makes
-- caches only for shifts of an `int` that C defines. `none` and `undefined` stand for behaviour
-- that C leaves undefined.
pub mod Access
pub mod Address
pub mod Correct
pub mod Dirty
pub mod Evict
pub mod Lines
pub mod Ideal
pub mod Lru
pub mod Recency
pub mod Step
mod Tests
use introduction_to_computer.Common.{
  ℕ, zero, suc, ◌+◌, ◌-◌, ◌*◌, ◌/◌, ◌%◌, ◌^◌, bit_and, List, [], ◌∷◌, Option, none, some, Bool,
  true, ltb, ◌==◌, ◌&&◌, if◌then◌else◌, get_or, set,
}

-- `MIN`, above every value of an LRU counter.
abbrev pub min_lru : ℕ
min_lru = 100000000

pub record CacheInformation : Type 0 where
  pub time : ℕ
  pub hits : ℕ
  pub misses : ℕ
  pub evicts : ℕ
  pub dirty_evicted : ℕ

pub record SetLine : Type 0 where
  pub valid : ℕ
  pub dirty : ℕ
  pub lru : ℕ
  pub tag : ℕ

abbrev pub CacheSet : Type 0
CacheSet = List SetLine

-- `lines_per_set` is the field `E`, `block_size` the field `B`.
pub record Cache : Type 0 where
  pub sets : List CacheSet
  pub lines_per_set : ℕ
  pub s : ℕ
  pub b : ℕ
  pub block_size : ℕ

-- What a run of the program comes to: a result, the end of `main` without one, or a shift that C
-- leaves undefined.
pub data Ending (A : Type 0) : Type 0 where
  ran : A → Ending A
  stopped : Ending A
  undefined : Ending A

-- `1 << k` on an `int`.
unfoldable pub int_shift : ℕ → Option ℕ
int_shift k = if ltb k 31 then some (2 ^ k) else none

-- `calloc(E, sizeof(setLine))`.
abbrev pub empty_line : SetLine
empty_line = record { valid = 0; dirty = 0; lru = 0; tag = 0 }

unfoldable pub calloc_lines : ℕ → CacheSet
calloc_lines zero = []
calloc_lines (suc n) = empty_line ∷ calloc_lines n

-- The loop over the sets. `alloc i` says whether the allocation of set `i` succeeds.
unfoldable pub new_sets : (alloc : ℕ → Bool) → ℕ → ℕ → ℕ → Option (List CacheSet)
new_sets alloc i zero e = some []
new_sets alloc i (suc n) e =
    let rest = new_sets alloc (i + 1) n e in
    if alloc i then elim rest [ none ↦ none | some sets ↦ some (calloc_lines e ∷ sets) ] else none

-- The fields `s` and `b` are set by the caller, from the indeterminate `s0` and `b0`.
unfoldable pub new_cache :
    (cache_ok sets_ok : Bool) (alloc : ℕ → Bool) (s0 b0 : ℕ) → ℕ → ℕ → ℕ → Option Cache
unfolding new_sets
new_cache cache_ok sets_ok alloc s0 b0 num_sets e block_size =
    if cache_ok
    then if sets_ok
      then elim (new_sets alloc 0 num_sets e) [
        | none ↦ none
        | some sets ↦
            some
              (record { sets = sets; lines_per_set = e; s = s0; b = b0; block_size = block_size })
      ]
      else none
    else none

-- The loop of `evict`, at line `i`.
unfoldable pub evict_loop : ℕ → ℕ → ℕ → CacheSet → ℕ
evict_loop i min min_index [] = min_index
evict_loop i min min_index (l ∷ ls) =
    evict_loop (i + 1) (if ltb l.lru min then l.lru else min)
      (if ltb l.lru min then i else min_index) ls

unfoldable pub evict : CacheSet → ℕ
unfolding evict_loop
evict curr_set = evict_loop 0 min_lru 0 curr_set

unfoldable pub dirty_in_set : ℕ → CacheSet → ℕ
dirty_in_set block_size [] = 0
dirty_in_set block_size (l ∷ ls) =
    (if l.dirty == 1 then block_size else 0) + dirty_in_set block_size ls

unfoldable pub dirty_in_sets : ℕ → List CacheSet → ℕ
unfolding dirty_in_set
dirty_in_sets block_size [] = 0
dirty_in_sets block_size (ls ∷ sets) = dirty_in_set block_size ls + dirty_in_sets block_size sets

unfoldable pub dirty_in_cache : Cache → ℕ
unfolding dirty_in_sets
dirty_in_cache curr_cache = dirty_in_sets curr_cache.block_size curr_cache.sets

-- `((addr >> shift) << shift) >> shift` on 64 bits.
unfoldable pub get_tag : ℕ → Cache → Option ℕ
get_tag addr curr_cache =
    let shift = curr_cache.s + curr_cache.b in
    if ltb shift 64 then some (addr / 2 ^ shift * 2 ^ shift % 2 ^ 64 / 2 ^ shift) else none

-- The mask is an `int`, the index an `unsigned int`.
unfoldable pub get_set_index : ℕ → Cache → Option ℕ
get_set_index addr curr_cache =
    let mask = 2 ^ curr_cache.s % 2 ^ 32 - 1 in
    let index = addr / 2 ^ curr_cache.b * 2 ^ curr_cache.b % 2 ^ 64 / 2 ^ curr_cache.b % 2 ^ 32 in
    if ltb curr_cache.s 32 && ltb curr_cache.b 64 then some (bit_and index mask) else none

unfoldable pub add_line : CacheSet → ℕ → ℕ → ℕ → ℕ → CacheSet
add_line curr_set tag index sflag time =
    set curr_set index
      (record { valid = 1; dirty = if sflag == 1 then 1 else 0; lru = time; tag = tag })

-- What the search loop of `run` ends with: a hit, the first free line, or neither.
pub data Search : Type 0 where
  hit : ℕ → Search
  empty_at : ℕ → Search
  full : Search

unfoldable pub search_lines : ℕ → ℕ → CacheSet → Search
search_lines i trace_tag [] = full
search_lines i trace_tag (l ∷ ls) =
    if l.valid == 1
    then if l.tag == trace_tag then hit i else search_lines (i + 1) trace_tag ls
    else empty_at i

-- A hit: the line gets the time, and is dirty after a store.
unfoldable pub touch_line : CacheSet → ℕ → ℕ → ℕ → CacheSet
touch_line curr_set i sflag time =
    let l = get_or curr_set i empty_line in
    set curr_set i (record l { lru = time; dirty = if sflag == 1 then 1 else l.dirty })

-- What `run` does with the outcome of its search.
unfoldable pub after_search :
    CacheInformation
    → (block_size trace_tag sflag : ℕ) → CacheSet
    → Search
    → CacheInformation × CacheSet
unfolding evict add_line touch_line
after_search info block_size trace_tag sflag curr_set (hit i) =
    let time = info.time + 1 in
    (record info { time = time; hits = info.hits + 1 }, touch_line curr_set i sflag time)
after_search info block_size trace_tag sflag curr_set (empty_at i) =
    let time = info.time + 1 in
    (
      record info { time = time; misses = info.misses + 1 },
      add_line curr_set trace_tag i sflag time,
    )
after_search info block_size trace_tag sflag curr_set full =
    let time = info.time + 1 in
    let evicted_line = evict curr_set in
    (
      record info {
        time = time;
        misses = info.misses + 1;
        evicts = info.evicts + 1;
        dirty_evicted =
            if (get_or curr_set evicted_line empty_line).dirty == 1
            then info.dirty_evicted + block_size
            else info.dirty_evicted;
      },
      add_line curr_set trace_tag evicted_line sflag time,
    )

-- `run` on the set that the address selects.
unfoldable pub run_set :
    CacheInformation → (block_size trace_tag sflag : ℕ) → CacheSet → CacheInformation × CacheSet
unfolding after_search search_lines
run_set info block_size trace_tag sflag curr_set =
    after_search info block_size trace_tag sflag curr_set (search_lines 0 trace_tag curr_set)

unfoldable pub run : CacheInformation → Cache → ℕ → ℕ → Option (CacheInformation × Cache)
unfolding run_set get_tag get_set_index
run info curr_cache addr sflag = elim (get_tag addr curr_cache) [
  | none ↦ none
  | some trace_tag ↦ elim (get_set_index addr curr_cache) [
    | none ↦ none
    | some set_index ↦
        let (info', lines) =
          run_set info curr_cache.block_size trace_tag sflag
            (get_or curr_cache.sets set_index []) in
        some (info', record curr_cache { sets = set curr_cache.sets set_index lines })
  ]
]

-- What `main` does with the records of the trace file, an instruction byte and an address each:
-- it stops when it meets an instruction other than a load and a store.
unfoldable pub simulate :
    List (ℕ × ℕ) → CacheInformation × Cache → Ending (CacheInformation × Cache)
unfolding run
simulate [] st = ran st
simulate ((instr, addr) ∷ trace) (info, curr_cache) =
    let loaded : Ending (CacheInformation × Cache) = elim (run info curr_cache addr 0) [
      | none ↦ undefined
      | some st ↦ simulate trace st
    ] in
    let stored : Ending (CacheInformation × Cache) = elim (run info curr_cache addr 1) [
      | none ↦ undefined
      | some st ↦ simulate trace st
    ] in
    if instr == b'L' then loaded else if instr == b'S' then stored else stopped

-- The numbers that `printSummary` is given.
pub record Summary : Type 0 where
  pub hits : ℕ
  pub misses : ℕ
  pub evicts : ℕ
  pub dirty_bytes : ℕ
  pub dirty_evicted : ℕ

unfoldable pub summary : CacheInformation × Cache → Summary
unfolding dirty_in_cache
summary (info, curr_cache) = record {
  hits = info.hits;
  misses = info.misses;
  evicts = info.evicts;
  dirty_bytes = dirty_in_cache curr_cache;
  dirty_evicted = info.dirty_evicted;
}

-- The part of `main` behind the allocation of the cache.
unfoldable pub report : List (ℕ × ℕ) → Option Cache → Ending Summary
unfolding simulate summary
report trace none = stopped
report trace (some c) =
    elim (simulate trace
      (record { time = 0; hits = 0; misses = 0; evicts = 0; dirty_evicted = 0 }, c)) [
        | ran st ↦ ran (summary st)
        | stopped ↦ stopped
        | undefined ↦ undefined
      ]

-- `main` behind the options, with every allocation granted and the trace file open.
unfoldable pub csim : (set_bits num_lines block_bits : ℕ) → List (ℕ × ℕ) → Ending Summary
unfolding int_shift new_cache calloc_lines report
csim set_bits num_lines block_bits trace = elim (int_shift set_bits) [
  | none ↦ undefined
  | some num_sets ↦ elim (int_shift block_bits) [
    | none ↦ undefined
    | some block_size ↦
        report trace
          (new_cache true true (λ _. true) set_bits block_bits num_sets num_lines block_size)
  ]
]
