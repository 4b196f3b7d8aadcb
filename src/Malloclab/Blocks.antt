-- ===== src/Malloclab/Blocks.antt =====
-- The blocks that malloc, realloc and calloc of malloclab/mm-naive.c have handed out.
use introduction_to_computer.Common.{
  ℕ, ◌≡◌, ◌∙◌, ◌⊎◌, ◌<◌, ◌≤◌, ◌+◌, ◌-◌, ◌%◌, ◌^◌, inl, inr, sym, ap, subst, List, [], ◌∷◌, arith,
}
use introduction_to_computer.Malloclab.{
  set_byte, Heap, wsize, header_size, alignment, store_number, load_number, roundup,
}
use introduction_to_computer.Malloclab.Bytes.{
  set_byte_other, store_number-outside, load_number-same, load_number-store,
}

-- Blocks, the newest first, each with its pointer and the size that was asked for: they are aligned,
-- each has room for its size behind its header, and lies below the one that was handed out after it.
unfoldable pub Laid : List (ℕ × ℕ) → (top : ℕ) → (ℕ → ℕ) → Type 0
Laid [] top m = Unit {0}
Laid ((p, n) ∷ bs) top m =
    (16 ≤ p)
    × (p % 16 ≡ 0)
    × (n + 16 ≤ load_number 8 (p - 16) m)
    × (p - 16 + load_number 8 (p - 16) m ≤ top)
    × Laid bs (p - 16) m

-- The heap ends at an aligned address above the blocks.
abbrev pub IsHeap : List (ℕ × ℕ) → Heap → Type 0
IsHeap bs h = (0 < h.brk) × (h.brk % 16 ≡ 0) × Laid bs h.brk h.bytes

-- The block at `p` was handed out for `n` bytes.
abbrev pub Holds : (p n : ℕ) → List (ℕ × ℕ) → Type 0
Holds p n [] = ⊥
Holds p n ((q, k) ∷ bs) = ((p ≡ q) × (n ≡ k)) ⊎ Holds p n bs

-- What is written at or above `top` leaves the blocks as they are.
pub Laid-same :
    (bs : List (ℕ × ℕ)) (top : ℕ) (m m' : ℕ → ℕ)
    → ((q : ℕ) → q < top → m q ≡ m' q)
    → Laid bs top m
    → Laid bs top m'
unfolding Laid
Laid-same [] top m m' e l = tt
Laid-same ((p, n) ∷ bs) top m m' e (a, b, c, d, l) =
    let header = load_number-same 8 (p - 16) m m' (λ q lq uq. e q (omega (arith, a, c, d, uq))) in
    (
      a,
      b,
      omega (arith, c, header),
      omega (arith, d, header),
      Laid-same bs (p - 16) m m' (λ q lq. e q (omega (arith, lq, d))) l,
    )

-- A block that was handed out lies within the heap.
pub Laid-Holds :
    (bs : List (ℕ × ℕ)) (top : ℕ) (m : ℕ → ℕ) (p n : ℕ)
    → Laid bs top m
    → Holds p n bs
    → (16 ≤ p) × (n + 16 ≤ load_number 8 (p - 16) m) × (p - 16 + load_number 8 (p - 16) m ≤ top)
unfolding Laid
Laid-Holds [] top m p n l h = absurd h
Laid-Holds ((q, k) ∷ bs) top m p n (a, b, c, d, l) (inl (ep, en)) =
    let header = ap (λ (r : ℕ). load_number 8 (r - 16) m) ep in
    (omega (arith, a, ep), omega (arith, c, en, header), omega (arith, d, ep, header))
Laid-Holds ((q, k) ∷ bs) top m p n (a, b, c, d, l) (inr h) =
    let (a', c', d') = Laid-Holds bs (q - 16) m p n l h in (a', c', omega (arith, d', d))

-- The size of a block.
abbrev pub block_size : ℕ → ℕ
block_size size = roundup ((size + header_size) % 2 ^ 64) alignment

block_size_lem :
    (size : ℕ)
    → size ≤ 2 ^ 64 - 32
    → (block_size size % 16 ≡ 0) × (size + 16 ≤ block_size size) × (block_size size ≤ size + 31)
unfolding roundup
block_size_lem size l = (omega (arith, l), omega (arith, l), omega (arith, l))

-- A block that is added on top.
abbrev pub added : (size : ℕ) → Heap → Heap
added size h = record {
  bytes = store_number wsize h.brk (block_size size) h.bytes;
  brk = h.brk + block_size size;
}

pub IsHeap-added :
    (size : ℕ) (bs : List (ℕ × ℕ)) (h : Heap)
    → size ≤ 2 ^ 64 - 32
    → IsHeap bs h
    → IsHeap ((h.brk + 16, size) ∷ bs) (added size h)
unfolding Laid
IsHeap-added size bs h l (pos, al, laid) =
    let (r, lo, hi) = block_size_lem size l in
    let back : h.brk + 16 - 16 ≡ h.brk = omega arith in
    let header : load_number 8 (h.brk + 16 - 16) ((added size h).bytes) ≡ block_size size =
      ap (λ (a : ℕ). load_number 8 a ((added size h).bytes)) back
      ∙ load_number-store 8 h.brk (block_size size) h.bytes (omega (arith, hi, l)) in
    (
      omega (arith, pos),
      omega (arith, al, r),
      (
        omega arith,
        omega (arith, al),
        omega (arith, header, lo),
        omega (arith, header),
        subst (λ (t : ℕ). Laid bs t ((added size h).bytes)) (sym back)
            (Laid-same bs h.brk h.bytes ((added size h).bytes)
              (λ q lq. sym (store_number-outside 8 h.brk (block_size size) q h.bytes (inl lq)))
              laid),
      ),
    )

-- What is written behind the header of the newest block leaves all blocks as they are.
pub Laid-payload :
    (p n : ℕ) (bs : List (ℕ × ℕ)) (top : ℕ) (m m' : ℕ → ℕ)
    → ((q : ℕ) → q < p → m q ≡ m' q)
    → Laid ((p, n) ∷ bs) top m
    → Laid ((p, n) ∷ bs) top m'
unfolding Laid
Laid-payload p n bs top m m' e (a, b, c, d, l) =
    let header = load_number-same 8 (p - 16) m m' (λ q lq uq. e q (omega (arith, a, uq))) in
    (
      a,
      b,
      omega (arith, c, header),
      omega (arith, d, header),
      Laid-same bs (p - 16) m m' (λ q lq. e q (omega (arith, lq))) l,
    )

Laid-rest :
    (p n : ℕ) (bs : List (ℕ × ℕ)) (top : ℕ) (m : ℕ → ℕ)
    → Laid ((p, n) ∷ bs) top m
    → Laid bs (p - 16) m
unfolding Laid
Laid-rest p n bs top m (a, b, c, d, l) = l

Laid-below :
    (p n : ℕ) (bs : List (ℕ × ℕ)) (top a v : ℕ) (m : ℕ → ℕ)
    → Laid ((p, n) ∷ bs) top m
    → Laid bs (p - 16) (set_byte a v m)
    → a < p - 16
    → Laid ((p, n) ∷ bs) top (set_byte a v m)
unfolding Laid
Laid-below p n bs top a v m (lp, b, c, d, l) rest below =
    let header =
      load_number-same 8 (p - 16) m (set_byte a v m)
        (λ q lq uq. sym (set_byte_other a v q m (omega (arith, below, lq)))) in
    (lp, b, omega (arith, c, header), omega (arith, d, header), rest)

-- So does a byte that is written into the payload of a block.
pub Laid-set_byte :
    (bs : List (ℕ × ℕ)) (top a v p n : ℕ) (m : ℕ → ℕ)
    → Laid bs top m
    → Holds p n bs
    → p ≤ a
    → a < p + n
    → Laid bs top (set_byte a v m)
Laid-set_byte [] top a v p n m l holds la ua = absurd holds
Laid-set_byte ((q, k) ∷ bs) top a v p n m l (inl (ep, en)) la ua =
    Laid-payload q k bs top m (set_byte a v m)
      (λ r lr. sym (set_byte_other a v r m (omega (arith, ep, la, lr)))) l
Laid-set_byte ((q, k) ∷ bs) top a v p n m l (inr later) la ua =
    Laid-below q k bs top a v m l
      (Laid-set_byte bs (q - 16) a v p n m (Laid-rest q k bs top m l) later la ua)
      (below (Laid-Holds bs (q - 16) m p n (Laid-rest q k bs top m l) later))
  where
    below :
        (16 ≤ p)
          × (n + 16 ≤ load_number 8 (p - 16) m)
          × (p - 16 + load_number 8 (p - 16) m ≤ q - 16)
        → a < q - 16
    below (lp, c, d) = omega (arith, lp, c, d, la, ua)
