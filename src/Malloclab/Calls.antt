-- ===== src/Malloclab/Calls.antt =====
-- What the calls of malloclab/mm-naive.c return, and what they leave in the heap.
use introduction_to_computer.Common.{
  ℕ, ◌≡◌, ◌≢◌, ◌∙◌, ◌⊎◌, ◌<◌, ◌≤◌, ◌+◌, ◌-◌, ◌*◌, ◌%◌, ◌^◌, inl, inr, refl, sym, ap, subst, Bool,
  true, false, List, ◌∷◌, Option, some, none, arith, if◌then◌else◌, ==-apart, Bool-cases, ltb_or,
}
use introduction_to_computer.Malloclab.{
  Heap, load_number, memcpy, memset, roundup, malloc, copied, copy_old, realloc, clear, calloc,
}
use introduction_to_computer.Malloclab.Bytes.{
  store_number-outside, memcpy-outside, memcpy-copied, memset-outside, memset-inside,
}
use introduction_to_computer.Malloclab.Blocks.{
  IsHeap, Holds, Laid, Laid-same, Laid-Holds, block_size, added, IsHeap-added, Laid-payload,
}

-- The two outcomes of malloc.
pub malloc-cases :
    (grows : ℕ → ℕ → Bool) (size : ℕ) (h : Heap)
    → (malloc grows size h ≡ (0, h)) ⊎ (malloc grows size h ≡ (h.brk + 16, added size h))
unfolding malloc
malloc-cases grows size h = elim (Bool-cases (grows h.brk (block_size size))) [
  | inl more ↦ inr (rw more refl)
  | inr full ↦ inl (rw full refl)
]

-- On a heap with blocks, for a size of at most 2 ^ 64 - 32 and an address q below its end, malloc
-- either returns a null pointer and changes nothing, or it returns a pointer behind the old end: the
-- new block is aligned, has room for the size, overlaps no other block, and leaves q as it was.
pub malloc_lem :
    (grows : ℕ → ℕ → Bool) (size : ℕ) (bs : List (ℕ × ℕ)) (h : Heap) (q : ℕ)
    → size ≤ 2 ^ 64 - 32
    → IsHeap bs h
    → q < h.brk
    → let (p, h') = malloc grows size h in
      ((p ≡ 0) × (h' ≡ h))
      ⊎ ((p ≡ h.brk + 16) × IsHeap ((p, size) ∷ bs) h' × (h'.bytes q ≡ h.bytes q))
malloc_lem grows size bs h q l heap lq = elim (malloc-cases grows size h) [
  | inl e ↦ inl (ap (λ (r : ℕ × Heap). r.0) e, ap (λ (r : ℕ × Heap). r.1) e)
  | inr e ↦
      subst
        (λ (r : ℕ × Heap).
          ((r.0 ≡ 0) × (r.1 ≡ h))
          ⊎ ((r.0 ≡ h.brk + 16) × IsHeap ((r.0, size) ∷ bs) (r.1) × ((r.1).bytes q ≡ h.bytes q)))
        (sym e)
        (inr (
          refl,
          IsHeap-added size bs h l heap,
          store_number-outside 8 h.brk (block_size size) q h.bytes (inl lq),
        ))
]

short : (size : ℕ) → 2 ^ 64 - 16 ≤ size → size < 2 ^ 64 → block_size size ≤ 16
unfolding roundup
short size l u = omega (arith, l, u)

-- A size within 16 bytes of 2 ^ 64 wraps around: if the heap can grow, malloc returns a pointer with
-- no byte of the heap behind it.
pub malloc_wraps :
    (grows : ℕ → ℕ → Bool) (size : ℕ) (h : Heap)
    → 2 ^ 64 - 16 ≤ size
    → size < 2 ^ 64
    → grows h.brk (block_size size) ≡ true
    → ((malloc grows size h).0 ≡ h.brk + 16) × (((malloc grows size h).1).brk ≤ h.brk + 16)
unfolding malloc
malloc_wraps grows size h l u more = rw more (refl, small size l u)
  where
    small : (size : ℕ) → 2 ^ 64 - 16 ≤ size → size < 2 ^ 64 → h.brk + block_size size ≤ h.brk + 16
    small size l u = omega (arith, short size l u)

-- The bytes that are copied lie below the end of the heap; they are no more than the new size, and
-- all of a block that is not larger.
copied_lem :
    (p n size : ℕ) (bs : List (ℕ × ℕ)) (top : ℕ) (m : ℕ → ℕ)
    → Laid bs top m
    → Holds p n bs
    → (16 ≤ p)
      × (p + n ≤ top)
      × (p + copied p size m ≤ top + 16)
      × (copied p size m ≤ size)
      × ((n ≤ copied p size m) ⊎ (copied p size m ≡ size))
copied_lem p n size bs top m laid holds =
    let (a, c, d) = Laid-Holds bs top m p n laid holds in
    elim (ltb_or size (load_number 8 (p - 16) m)) [
      | inl (t, less) ↦
          rw t (a, omega (arith, a, c, d), omega (arith, a, c, d, less), omega arith, inr refl)
      | inr (t, more) ↦
          rw t (a, omega (arith, a, c, d), omega (arith, a, c, d), more, inl (omega (arith, c)))
    ]

-- Bytes that are written behind the header of a new block.
pub IsHeap-written :
    (size : ℕ) (bs : List (ℕ × ℕ)) (h : Heap) (m : ℕ → ℕ)
    → size ≤ 2 ^ 64 - 32
    → IsHeap bs h
    → ((r : ℕ) → r < h.brk + 16 → (added size h).bytes r ≡ m r)
    → IsHeap ((h.brk + 16, size) ∷ bs) (record { bytes = m; brk = h.brk + block_size size })
IsHeap-written size bs h m l heap same =
    let (pos, al, laid) = IsHeap-added size bs h l heap in
    (
      pos,
      al,
      Laid-payload (h.brk + 16) size bs ((added size h).brk) ((added size h).bytes) m same laid,
    )

-- What `realloc` may give for the byte `i` of the block at `p` and an address `q` of the heap.
abbrev pub Moved : (p size i q : ℕ) → List (ℕ × ℕ) → (h : Heap) → (result : ℕ × Heap) → Type 0
Moved p size i q bs h (p', h') =
    ((p' ≡ 0) × (h' ≡ h))
    ⊎ ((p' ≡ h.brk + 16)
        × IsHeap ((p', size) ∷ bs) h'
        × (h'.bytes (p' + i) ≡ h.bytes (p + i))
        × (h'.bytes q ≡ h.bytes q))

copy_old-Moved :
    (p n size i : ℕ) (bs : List (ℕ × ℕ)) (h : Heap) (q : ℕ)
    → size ≤ 2 ^ 64 - 32
    → IsHeap bs h
    → Holds p n bs
    → i < n
    → i < size
    → q < h.brk
    → Moved p size i q bs h (copy_old p size (h.brk + 16, added size h))
copy_old-Moved p n size i bs h q l heap holds li ls lq =
    let m1 = (added size h).bytes in
    let same : (r : ℕ) → r < h.brk → m1 r ≡ h.bytes r =
      λ r lr. store_number-outside 8 h.brk (block_size size) r h.bytes (inl lr) in
    let laid = Laid-same bs h.brk h.bytes m1 (λ r lr. sym (same r lr)) (heap.2) in
    let (lp, ln, low, few, all) = copied_lem p n size bs h.brk m1 laid holds in
    let k = copied p size m1 in
    let kept : (r : ℕ) → r < h.brk + 16 → memcpy k (h.brk + 16) p m1 r ≡ m1 r =
      λ r lr. memcpy-outside k (h.brk + 16) p r m1 (inl lr) in
    let inside : i < k = omega (arith, all, li, ls) in
    rw (==-apart (h.brk + 16) 0 (λ e. omega (arith, e))) (
      inr (
        refl,
        IsHeap-written size bs h (memcpy k (h.brk + 16) p m1) l heap (λ r lr. sym (kept r lr)),
        memcpy-copied k (h.brk + 16) p i m1 low inside ∙ same (p + i) (omega (arith, ln, li)),
        kept q (omega (arith, lq)) ∙ same q lq,
      ))

-- On a heap that holds a block of n bytes at p, for a size that is not 0 and at most 2 ^ 64 - 32, an
-- index i below n and the size, and an address q below the end of the heap, realloc either returns a
-- null pointer and changes nothing, or it returns a new block: aligned, with room for the size,
-- apart from all others, with the byte i of the old block, and q as it was.
pub realloc_lem :
    (grows : ℕ → ℕ → Bool) (p n size i : ℕ) (bs : List (ℕ × ℕ)) (h : Heap) (q : ℕ)
    → size ≢ 0
    → size ≤ 2 ^ 64 - 32
    → IsHeap bs h
    → Holds p n bs
    → i < n
    → i < size
    → q < h.brk
    → Moved p size i q bs h (realloc grows p size h)
unfolding realloc
realloc_lem grows p n size i bs h q nz l heap holds li ls lq =
    let (lp, _, _) = Laid-Holds bs h.brk h.bytes p n (heap.2) holds in
    rw (==-apart size 0 nz, ==-apart p 0 (λ e. omega (arith, e, lp)))
      (elim (malloc-cases grows size h) [
        | inl e ↦
            subst (λ (r : ℕ × Heap). Moved p size i q bs h (copy_old p size r)) (sym e)
              (inl (refl, refl))
        | inr e ↦
            subst (λ (r : ℕ × Heap). Moved p size i q bs h (copy_old p size r)) (sym e)
              (copy_old-Moved p n size i bs h q l heap holds li ls lq)
      ])

-- What `calloc` may give for the byte `i`.
abbrev pub Cleared :
    (bytes i : ℕ) → List (ℕ × ℕ) → (h : Heap) → (result : Option (ℕ × Heap)) → Type 0
Cleared bytes i bs h none = ⊥
Cleared bytes i bs h (some (p, h')) =
    (p ≡ h.brk + 16) × IsHeap ((p, bytes) ∷ bs) h' × (h'.bytes (p + i) ≡ 0)

clear-Cleared :
    (bytes i : ℕ) (bs : List (ℕ × ℕ)) (h : Heap)
    → bytes ≤ 2 ^ 64 - 32
    → IsHeap bs h
    → i < bytes
    → Cleared bytes i bs h (clear bytes (h.brk + 16, added bytes h))
clear-Cleared bytes i bs h l heap li =
    let m1 = (added bytes h).bytes in
    rw (==-apart (h.brk + 16) 0 (λ e. omega (arith, e))) (
      refl,
      IsHeap-written bytes bs h (memset bytes (h.brk + 16) 0 m1) l heap
          (λ r lr. sym (memset-outside bytes (h.brk + 16) 0 r m1 (inl lr))),
      memset-inside bytes (h.brk + 16) 0 (h.brk + 16 + i) m1 (omega arith) (omega (arith, li)),
    )

clear-malloc :
    (grows : ℕ → ℕ → Bool) (bytes i : ℕ) (bs : List (ℕ × ℕ)) (h : Heap)
    → bytes ≤ 2 ^ 64 - 32
    → IsHeap bs h
    → i < bytes
    → ((grows h.brk (block_size bytes) ≡ false) × (clear bytes (malloc grows bytes h) ≡ none))
      ⊎ Cleared bytes i bs h (clear bytes (malloc grows bytes h))
unfolding malloc
clear-malloc grows bytes i bs h l heap li = elim (Bool-cases (grows h.brk (block_size bytes))) [
  | inl more ↦ inr (
      subst
        (λ (b : Bool).
          Cleared bytes i bs h (clear bytes (if b then (h.brk + 16, added bytes h) else (0, h))))
        (sym more) (clear-Cleared bytes i bs h l heap li))
  | inr full ↦ inl (full, rw (full, ==-apart bytes 0 (λ e. omega (arith, e, li))) refl)
]

-- On a heap with blocks, for a number of bytes that is at most 2 ^ 64 - 32 and an index i below it,
-- calloc writes through the null pointer if the heap cannot grow, and else returns a new block that
-- is aligned, overlaps no other block, and has a 0 at i.
pub calloc_lem :
    (grows : ℕ → ℕ → Bool) (nmemb size i : ℕ) (bs : List (ℕ × ℕ)) (h : Heap)
    → nmemb * size ≤ 2 ^ 64 - 32
    → IsHeap bs h
    → i < nmemb * size
    → ((grows h.brk (block_size (nmemb * size)) ≡ false) × (calloc grows nmemb size h ≡ none))
      ⊎ Cleared (nmemb * size) i bs h (calloc grows nmemb size h)
unfolding calloc
calloc_lem grows nmemb size i bs h l heap li =
    let whole : nmemb * size % 2 ^ 64 ≡ nmemb * size = omega (arith, l) in
    subst
      (λ (b : ℕ).
        ((grows h.brk (block_size (nmemb * size)) ≡ false) × (clear b (malloc grows b h) ≡ none))
        ⊎ Cleared (nmemb * size) i bs h (clear b (malloc grows b h)))
      (sym whole) (clear-malloc grows (nmemb * size) i bs h l heap li)
