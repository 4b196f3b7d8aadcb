-- ===== src/Cachelab/Csim/Correct.antt =====
-- The whole of cachelab/csim.c against the ideal cache.
use native.Mathlib.Nat.{zero-add}
use introduction_to_computer.Common.{
  ℕ, zero, suc, ◌+◌, ◌^◌, ◌<◌, ◌≡◌, refl, subst, replicate, length-replicate, Option, none, some,
  List, [], ◌∷◌, true, false, arith, length, get_or, lt→ltb, ◌==◌, Bool-cases, inl, inr,
}
use introduction_to_computer.Cachelab.Csim.{
  CacheInformation, Cache, CacheSet, Summary, Ending, ran, stopped, undefined, int_shift,
  calloc_lines, min_lru, simulate, new_sets, dirty_in_cache, csim, report, summary, new_cache,
}
use introduction_to_computer.Cachelab.Csim.Dirty.{dirty-Refines, dirty_in_sets-dirty_from}
use introduction_to_computer.Cachelab.Csim.Ideal.{
  dirty_from, Stats, Sets, access_address, ideal, ideal_csim,
}
use introduction_to_computer.Cachelab.Csim.Lru.{stats, Refines}
use introduction_to_computer.Cachelab.Csim.Step.{Models, next, run_lem, next-Models}

-- Every address of the trace has 64 bits.
abbrev pub Wide : List (ℕ × ℕ) → Type 0
Wide [] = Unit {0}
Wide ((instr, addr) ∷ trace) = (addr < 2 ^ 64) × Wide trace

-- The two ends of a run: both refuse the trace, or both go through and agree.
Agree : (n s b : ℕ) → Ending (CacheInformation × Cache) → Option (Stats × Sets) → Type 0
Agree n s b stopped none = Unit
Agree n s b stopped (some _) = ⊥
Agree n s b undefined _ = ⊥
Agree n s b (ran _) none = ⊥
Agree n s b (ran (info, c)) (some (stats', sets)) = (stats info ≡ stats') × Models n s b info c sets

simulate-Agree :
    (n s b : ℕ) (trace : List (ℕ × ℕ)) (info : CacheInformation) (c : Cache) (sets : Sets)
    → Models n s b info c sets
    → s < 32
    → s + b < 64
    → Wide trace
    → info.time + length trace < min_lru
    → Agree n s b (simulate trace (info, c)) (ideal (suc n) s b trace (stats info, sets))
unfolding Agree simulate ideal
simulate-Agree n s b [] info c sets m few fine wide short = (refl, m)
simulate-Agree n s b ((instr, addr) ∷ trace) info c sets m few fine wide short =
    let now : info.time < min_lru = omega arith in
    elim (Bool-cases (instr == b'L')) [
      | inl load ↦
          let (e, time, m') = next-Models n s b info c sets m addr wide.0 few fine now 0 in
          rw (load, run_lem n s b info c sets m addr wide.0 few fine now 0)
            (subst
              (λ st.
                Agree n s b (simulate trace (next n s b info c sets m addr wide.0 few fine now 0)) (
                  ideal (suc n) s b trace
                    (st, (access_address (suc n) s b addr false (stats info, sets)).1)))
              e (simulate-Agree n s b trace _ _ _ m' few fine wide.1 (omega arith)))
      | inr other ↦ elim (Bool-cases (instr == b'S')) [
        | inl store ↦
            let (e, time, m') = next-Models n s b info c sets m addr wide.0 few fine now 1 in
            rw (other, store, run_lem n s b info c sets m addr wide.0 few fine now 1)
              (subst
                (λ st.
                  Agree n s b (simulate trace (next n s b info c sets m addr wide.0 few fine now 1))
                    (ideal (suc n) s b trace
                      (st, (access_address (suc n) s b addr true (stats info, sets)).1)))
                e (simulate-Agree n s b trace _ _ _ m' few fine wide.1 (omega arith)))
        | inr neither ↦ rw (other, neither) tt
      ]
    ]

new_sets-replicate : (i k e : ℕ) → new_sets (λ _. true) i k e ≡ some (replicate k (calloc_lines e))
unfolding new_sets
new_sets-replicate i zero e = refl
new_sets-replicate i (suc k) e = rw (new_sets-replicate (i + 1) k e)

get_or-replicate : (k i : ℕ) (x : CacheSet) → i < k → get_or (replicate k x) i [] ≡ x
get_or-replicate zero i x h = absurd (omega arith)
get_or-replicate (suc k) zero x h = refl
get_or-replicate (suc k) (suc i) x h = get_or-replicate k i x (omega arith)

abbrev start : CacheInformation
start = record { time = 0; hits = 0; misses = 0; evicts = 0; dirty_evicted = 0 }

abbrev empty_cache : (n s b : ℕ) → Cache
empty_cache n s b = record {
  sets = replicate (2 ^ s) (calloc_lines (suc n));
  lines_per_set = suc n;
  s = s;
  b = b;
  block_size = 2 ^ b;
}

Refines-empty_set : (n : ℕ) → Refines (suc n) 0 (calloc_lines (suc n)) []
Refines-empty_set n = record {
  free = suc n;
  used = [];
  split = refl;
  room = omega arith;
  used-Used = tt;
  stack-Used = tt;
  same = λ j. refl;
  size = refl;
  falling = tt;
}

Models-start : (n s b : ℕ) → Models n s b start (empty_cache n s b) (λ _. [])
Models-start n s b = record {
  set_bits = refl;
  block_bits = refl;
  block_bytes = refl;
  num_sets = length-replicate (2 ^ s) (calloc_lines (suc n));
  each = λ i lt.
      rw (get_or-replicate (2 ^ s) i (calloc_lines (suc n)) lt) ([], Refines-empty_set n, refl);
}

dirty-Models :
    (n s b : ℕ) (info : CacheInformation) (c : Cache) (sets : Sets)
    → Models n s b info c sets
    → dirty_in_cache c ≡ dirty_from (2 ^ b) sets 0 (2 ^ s)
unfolding dirty_in_cache
dirty-Models n s b info c sets m =
    simp (m.block_bytes, ← m.num_sets)
      (dirty_in_sets-dirty_from (2 ^ b) 0 c.sets sets (λ k lt.
        let (stack, r, v) = m.each k (omega (arith, m.num_sets)) in
        rw (zero-add, ← v) (dirty-Refines (2 ^ b) r)))

-- A description that refuses, or gives a result.
abbrev pub ending_of : {A : Type 0} → Option A → Ending A
ending_of none = stopped
ending_of (some a) = ran a

csim_of_Agree :
    (n s b : ℕ) (r : Ending (CacheInformation × Cache)) (o : Option (Stats × Sets))
    → Agree n s b r o
    → elim r as (λ _. Ending Summary) [
      | ran st ↦ ran (summary st)
      | stopped ↦ stopped
      | undefined ↦ undefined
    ]
      ≡ ending_of (elim o [
        | none ↦ none
        | some (st, sets) ↦ some (record {
          hits = st.hits;
          misses = st.misses;
          evicts = st.evicts;
          dirty_bytes = dirty_from (2 ^ b) sets 0 (2 ^ s);
          dirty_evicted = st.dirty_evicted;
        })
      ])
unfolding Agree summary
csim_of_Agree n s b stopped none h = refl
csim_of_Agree n s b stopped (some o) h = absurd h
csim_of_Agree n s b undefined none h = absurd h
csim_of_Agree n s b undefined (some o) h = absurd h
csim_of_Agree n s b (ran r) none h = absurd h
csim_of_Agree n s b (ran (info, c)) (some (st, sets)) (e, m) =
    ground (arith, e, dirty-Models n s b info c sets m)

new_cache-empty :
    (n s b : ℕ)
    → new_cache true true (λ _. true) s b (2 ^ s) (suc n) (2 ^ b) ≡ some (empty_cache n s b)
unfolding new_cache
new_cache-empty n s b = rw (new_sets-replicate 0 (2 ^ s) (suc n), new_cache)

-- For a cache whose number of sets, number of lines in a set (at least one) and block size fit
-- into an `int`, and a trace of 64-bit addresses that is shorter than `MIN` (the bound that the
-- source states for its LRU counters), no shift is undefined, and the simulator reports exactly
-- the hits, misses, evictions, dirty bytes and evicted dirty bytes of the ideal cache, and it
-- refuses exactly the traces that the ideal cache refuses.
pub csim-ideal :
    (n s b : ℕ) (trace : List (ℕ × ℕ))
    → s < 31
    → suc n < 2 ^ 31
    → b < 31
    → Wide trace
    → length trace < min_lru
    → csim s (suc n) b trace ≡ ending_of (ideal_csim s (suc n) b trace)
unfolding csim int_shift report ideal_csim
csim-ideal n s b trace sets lines blocks wide short =
    rw (csim, int_shift, lt→ltb s 31 sets, lt→ltb b 31 blocks)
      (rw (new_cache-empty n s b, csim)
        (csim_of_Agree n s b _ _ (
          simulate-Agree n s b trace start (empty_cache n s b) (λ _. []) (Models-start n s b)
            (omega arith) (omega arith) wide (omega arith))))
