-- ===== src/Malloclab/Tests.antt =====
-- Runs of the model of malloclab/mm-naive.c, and its theorems at concrete inputs.
use introduction_to_computer.Common.{
  ℕ, ◌≡◌, ◌⊎◌, ◌+◌, ◌^◌, ◌-◌, ◌≤◌, inl, refl, Bool, false, List, [], ◌∷◌, none, ltb, arith,
}
use introduction_to_computer.Malloclab.{Heap, roundup, malloc, realloc, calloc}
use introduction_to_computer.Malloclab.Blocks.{IsHeap, Laid, block_size, added, IsHeap-added}
use introduction_to_computer.Malloclab.Calls.{Moved, Cleared, malloc_wraps, realloc_lem, calloc_lem}
use introduction_to_computer.Malloclab.Reachable.{begins, mallocs, Reaches-IsHeap}

-- A heap of at most 4096 bytes that begins at 1024.
abbrev grows : ℕ → ℕ → Bool
grows brk incr = ltb (brk + incr) 5120

abbrev empty : Heap
empty = record { bytes = λ q. 0; brk = 1024 }

abbrev blocks : List (ℕ × ℕ)
blocks = (1040, 10) ∷ []

abbrev one : Heap
one = added 10 empty

rounds : roundup 26 16 ≡ 32
unfolding roundup
rounds = refl

empty-IsHeap : IsHeap [] empty
unfolding Laid
empty-IsHeap = (omega arith, refl, tt)

one-IsHeap : IsHeap blocks one
one-IsHeap = IsHeap-added 10 [] empty (omega arith) empty-IsHeap

first_malloc : malloc grows 10 empty ≡ (1040, one)
unfolding malloc roundup
first_malloc = refl

malloc_wraps_example :
    ((malloc grows (2 ^ 64 - 1) empty).0 ≡ 1040)
    × (((malloc grows (2 ^ 64 - 1) empty).1).brk ≤ 1040)
unfolding roundup
malloc_wraps_example = malloc_wraps grows (2 ^ 64 - 1) empty (omega arith) (omega arith) refl

realloc_lem_example : Moved 1040 20 3 1025 blocks one (realloc grows 1040 20 one)
unfolding roundup
realloc_lem_example =
    realloc_lem grows 1040 10 20 3 blocks one 1025 (omega arith) (omega arith) one-IsHeap
      (inl (refl, refl)) (omega arith) (omega arith) (omega arith)

calloc_lem_example :
    ((grows 1024 (block_size 12) ≡ false) × (calloc grows 3 4 empty ≡ none))
    ⊎ Cleared 12 5 [] empty (calloc grows 3 4 empty)
calloc_lem_example = calloc_lem grows 3 4 5 [] empty (omega arith) empty-IsHeap (omega arith)

Reaches-IsHeap_example : IsHeap blocks one
Reaches-IsHeap_example =
    Reaches-IsHeap grows 1024 blocks one (omega arith) refl
      (mallocs [] empty 10 1040 one (begins (λ q. 0)) (omega arith) first_malloc (omega arith))
