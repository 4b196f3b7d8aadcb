-- ===== src/Cachelab/Csim/Tests.antt =====
-- Runs of the model of cachelab/csim.c, and its theorems at concrete inputs.
use introduction_to_computer.Common.{ℕ, ◌≡◌, refl, List, [], ◌∷◌, arith}
use introduction_to_computer.Cachelab.Csim.{
  Cache, CacheSet, SetLine, ran, stopped, undefined, int_shift, csim,
}
use introduction_to_computer.Cachelab.Csim.Correct.{ending_of, csim-ideal}
use introduction_to_computer.Cachelab.Csim.Ideal.{ideal_csim}

-- Loads and stores at a few addresses of a direct-mapped cache with 16 sets of 16 bytes.
abbrev trace : List (ℕ × ℕ)
trace =
    (b'L', 0x10)
    ∷ (b'S', 0x20)
    ∷ (b'L', 0x20)
    ∷ (b'S', 0x22)
    ∷ (b'S', 0x18)
    ∷ (b'L', 0x110)
    ∷ (b'L', 0x210)
    ∷ (b'S', 0x12)
    ∷ []

csim_runs :
    csim 4 1 4 trace
    ≡ ran (record { hits = 3; misses = 5; evicts = 3; dirty_bytes = 32; dirty_evicted = 16 })
unfolding csim
csim_runs = refl

csim_refuses : csim 4 1 4 ((b'M', 0x10) ∷ []) ≡ stopped
unfolding csim
csim_refuses = refl

-- A block of 2 ^ 31 bytes.
csim_undefined : csim 0 1 31 trace ≡ undefined
unfolding csim int_shift
csim_undefined = refl

csim-ideal_example : csim 4 1 4 trace ≡ ending_of (ideal_csim 4 1 4 trace)
csim-ideal_example =
    csim-ideal 0 4 4 trace (omega arith) (omega arith) (omega arith) (omega arith) (omega arith)

abbrev small_cache : Cache
small_cache = record { sets = []; lines_per_set = 1; s = 4; b = 4; block_size = 16 }

abbrev line : ℕ → ℕ → SetLine
line t time = record { valid = 1; dirty = 0; lru = time; tag = t }

abbrev two_lines : CacheSet
two_lines = line 8 4 ∷ line 9 2 ∷ []
