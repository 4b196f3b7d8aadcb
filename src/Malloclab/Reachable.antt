-- ===== src/Malloclab/Reachable.antt =====
-- All heaps that a program can reach through malloclab/mm-naive.c when it keeps to its blocks.
use introduction_to_computer.Common.{
  ℕ, ◌≡◌, ◌≢◌, ◌∙◌, ◌<◌, ◌≤◌, ◌+◌, ◌-◌, ◌%◌, ◌^◌, inl, inr, refl, sym, ap, subst, Bool, List, [],
  ◌∷◌, arith, ==-apart,
}
use introduction_to_computer.Malloclab.{Heap, set_byte, memcpy, malloc, copied, copy_old, realloc}
use introduction_to_computer.Malloclab.Bytes.{memcpy-outside}
use introduction_to_computer.Malloclab.Blocks.{
  IsHeap, Holds, Laid, Laid-Holds, Laid-set_byte, added, IsHeap-added,
}
use introduction_to_computer.Malloclab.Calls.{malloc-cases, IsHeap-written}

-- The blocks that were handed out and the heap, after calls that did not fail and writes into blocks.
pub data Reaches (grows : ℕ → ℕ → Bool) (start : ℕ) : List (ℕ × ℕ) → Heap → Type 0 where
  begins : (m : ℕ → ℕ) → Reaches grows start [] (record { bytes = m; brk = start })
  mallocs :
      (bs : List (ℕ × ℕ)) (h : Heap) (size p : ℕ) (h' : Heap)
      → Reaches grows start bs h
      → size ≤ 2 ^ 64 - 32
      → malloc grows size h ≡ (p, h')
      → p ≢ 0
      → Reaches grows start ((p, size) ∷ bs) h'
  reallocs :
      (bs : List (ℕ × ℕ)) (h : Heap) (old n size p : ℕ) (h' : Heap)
      → Reaches grows start bs h
      → Holds old n bs
      → size ≢ 0
      → size ≤ 2 ^ 64 - 32
      → realloc grows old size h ≡ (p, h')
      → p ≢ 0
      → Reaches grows start ((p, size) ∷ bs) h'
  writes :
      (bs : List (ℕ × ℕ)) (h : Heap) (p n i v : ℕ)
      → Reaches grows start bs h
      → Holds p n bs
      → i < n
      → Reaches grows start bs (record h { bytes = set_byte (p + i) v h.bytes })

malloc-IsHeap :
    (grows : ℕ → ℕ → Bool) (bs : List (ℕ × ℕ)) (h : Heap) (size p : ℕ) (h' : Heap)
    → IsHeap bs h
    → size ≤ 2 ^ 64 - 32
    → malloc grows size h ≡ (p, h')
    → p ≢ 0
    → IsHeap ((p, size) ∷ bs) h'
malloc-IsHeap grows bs h size p h' heap l e nz = elim (malloc-cases grows size h) [
  | inl full ↦ absurd (nz (ap (λ (r : ℕ × Heap). r.0) (sym e ∙ full)))
  | inr more ↦
      subst (λ (r : ℕ × Heap). IsHeap ((r.0, size) ∷ bs) (r.1)) (sym more ∙ e)
        (IsHeap-added size bs h l heap)
]

copy_old-IsHeap :
    (bs : List (ℕ × ℕ)) (h : Heap) (old size : ℕ)
    → IsHeap bs h
    → size ≤ 2 ^ 64 - 32
    → let (p, h') = copy_old old size (h.brk + 16, added size h) in IsHeap ((p, size) ∷ bs) h'
copy_old-IsHeap bs h old size heap l =
    let m1 = (added size h).bytes in
    rw (==-apart (h.brk + 16) 0 (λ e. omega (arith, e))) (
      IsHeap-written size bs h (memcpy (copied old size m1) (h.brk + 16) old m1) l heap
        (λ r lr. sym (memcpy-outside (copied old size m1) (h.brk + 16) old r m1 (inl lr))))

realloc-IsHeap :
    (grows : ℕ → ℕ → Bool) (bs : List (ℕ × ℕ)) (h : Heap) (old n size p : ℕ) (h' : Heap)
    → IsHeap bs h
    → Holds old n bs
    → size ≢ 0
    → size ≤ 2 ^ 64 - 32
    → realloc grows old size h ≡ (p, h')
    → p ≢ 0
    → IsHeap ((p, size) ∷ bs) h'
unfolding realloc
realloc-IsHeap grows bs h old n size p h' heap holds ns l e nz =
    let (lp, _, _) = Laid-Holds bs h.brk h.bytes old n (heap.2) holds in
    let copies : copy_old old size (malloc grows size h) ≡ (p, h') =
      sym (rw (==-apart size 0 ns, ==-apart old 0 (λ e. omega (arith, e, lp))) refl) ∙ e in
    elim (malloc-cases grows size h) [
      | inl full ↦
          absurd (nz (ap (λ (r : ℕ × Heap). r.0) (sym copies ∙ ap (copy_old old size) full)))
      | inr more ↦
          subst (λ (r : ℕ × Heap). IsHeap ((r.0, size) ∷ bs) (r.1))
            (sym (ap (copy_old old size) more) ∙ copies) (copy_old-IsHeap bs h old size heap l)
    ]

-- From any heap that begins at an aligned address, after any sequence of calls of malloc and realloc
-- that succeed, for sizes of at most 2 ^ 64 - 32, and of writes into the blocks: every block that was
-- handed out is aligned, keeps its header, has room for its size, lies within the heap and overlaps
-- no other block.
pub Reaches-IsHeap :
    (grows : ℕ → ℕ → Bool) (start : ℕ) (bs : List (ℕ × ℕ)) (h : Heap)
    → 0 < start
    → start % 16 ≡ 0
    → Reaches grows start bs h
    → IsHeap bs h
unfolding Laid
Reaches-IsHeap grows start bs h pos al (begins m) = (pos, al, tt)
Reaches-IsHeap grows start bs h pos al (mallocs bs' h0 size p h' r l e nz) =
    malloc-IsHeap grows bs' h0 size p h' (Reaches-IsHeap grows start bs' h0 pos al r) l e nz
Reaches-IsHeap grows start bs h pos al (reallocs bs' h0 old n size p h' r holds ns l e nz) =
    realloc-IsHeap grows bs' h0 old n size p h' (Reaches-IsHeap grows start bs' h0 pos al r) holds
      ns l e nz
Reaches-IsHeap grows start bs h pos al (writes bs' h0 p n i v r holds li) =
    let (pos', al', laid) = Reaches-IsHeap grows start bs' h0 pos al r in
    (
      pos',
      al',
      Laid-set_byte bs' h0.brk (p + i) v p n h0.bytes laid holds (omega arith) (omega (arith, li)),
    )
