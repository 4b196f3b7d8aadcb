-- ===== src/Malloclab.antt =====
-- The allocator of malloclab/mm-naive.c on a heap of bytes. `mem_sbrk` is not in the repository:
-- `grows` tells whether it can extend the heap that ends at an address by a number of bytes, and if
-- so it returns the old end. A null pointer is 0.
pub mod Bytes
pub mod Blocks
pub mod Calls
pub mod Reachable
mod Tests
use introduction_to_computer.Common.{
  ℕ, zero, suc, ◌+◌, ◌-◌, ◌*◌, ◌/◌, ◌%◌, ◌^◌, Bool, true, false, ◌&&◌, not, Option, some, none, ltb,
  ◌==◌, if◌then◌else◌,
}

abbrev pub wsize : ℕ
wsize = 8

abbrev pub alignment : ℕ
alignment = 2 * wsize

-- The size of the header, with its padding.
abbrev pub header_size : ℕ
header_size = 16

-- The bytes at all addresses, and the end of the heap.
pub record Heap : Type 0 where
  pub bytes : ℕ → ℕ
  pub brk : ℕ

abbrev pub set_byte : (a v : ℕ) → (ℕ → ℕ) → ℕ → ℕ
set_byte a v m q = if q == a then v else m q

-- A number of `n` bytes, the lowest byte first.
unfoldable pub store_number : (n a v : ℕ) → (ℕ → ℕ) → ℕ → ℕ
store_number zero a v m = m
store_number (suc n) a v m = store_number n (a + 1) (v / 256) (set_byte a (v % 256) m)

unfoldable pub load_number : (n a : ℕ) → (ℕ → ℕ) → ℕ
load_number zero a m = 0
load_number (suc n) a m = m a + load_number n (a + 1) m * 256

unfoldable pub memcpy : (n dst src : ℕ) → (ℕ → ℕ) → ℕ → ℕ
memcpy zero dst src m = m
memcpy (suc n) dst src m = memcpy n (dst + 1) (src + 1) (set_byte dst (m src) m)

unfoldable pub memset : (n dst v : ℕ) → (ℕ → ℕ) → ℕ → ℕ
memset zero dst v m = m
memset (suc n) dst v m = memset n (dst + 1) v (set_byte dst v m)

unfoldable pub roundup : (size multiple : ℕ) → ℕ
roundup size multiple = multiple * ((size + multiple - 1) % 2 ^ 64 / multiple) % 2 ^ 64

abbrev pub payload_to_header : ℕ → ℕ
payload_to_header bp = bp - header_size

abbrev pub header_to_payload : ℕ → ℕ
header_to_payload block = block + header_size

unfoldable pub malloc : (grows : ℕ → ℕ → Bool) → (size : ℕ) → Heap → ℕ × Heap
malloc grows size h =
    let newsize = roundup ((size + header_size) % 2 ^ 64) alignment in
    if grows h.brk newsize
    then (
      header_to_payload h.brk,
      record { bytes = store_number wsize h.brk newsize h.bytes; brk = h.brk + newsize },
    )
    else (0, h)

abbrev pub free : (ptr : ℕ) → Heap → Heap
free ptr h = h

-- The bytes that `realloc` copies.
abbrev pub copied : (oldptr size : ℕ) → (ℕ → ℕ) → ℕ
copied oldptr size m =
    let copysize = load_number wsize (payload_to_header oldptr) m in
    if ltb size copysize then size else copysize

abbrev pub copy_old : (oldptr size : ℕ) → ℕ × Heap → ℕ × Heap
copy_old oldptr size (newptr, h) = if newptr == 0 then (0, h) else (
  newptr,
  free oldptr (record h { bytes = memcpy (copied oldptr size h.bytes) newptr oldptr h.bytes }),
)

unfoldable pub realloc : (grows : ℕ → ℕ → Bool) → (oldptr size : ℕ) → Heap → ℕ × Heap
realloc grows oldptr size h =
    if size == 0
    then (0, free oldptr h)
    else if oldptr == 0
    then malloc grows size h
    else copy_old oldptr size (malloc grows size h)

-- `none` is a write through the null pointer.
abbrev pub clear : (bytes : ℕ) → ℕ × Heap → Option (ℕ × Heap)
clear bytes (newptr, h) =
    if (newptr == 0) && not (bytes == 0)
    then none
    else some (newptr, record h { bytes = memset bytes newptr 0 h.bytes })

unfoldable pub calloc : (grows : ℕ → ℕ → Bool) → (nmemb size : ℕ) → Heap → Option (ℕ × Heap)
calloc grows nmemb size h = let bytes = nmemb * size % 2 ^ 64 in clear bytes (malloc grows bytes h)
