-- ===== src/Proxylab/Response.antt =====
-- send_response_to_client of proxylab/proxy.c. What `rio_readnb` of the library csapp.c returns in
-- each round is the list of readings; what is written to the client is kept, and a failed write
-- has no effect on the rest.
pub mod Forwarded
mod Tests
use introduction_to_computer.Common.{
  ℤ, pos, negsuc, to_size, ℕ, zero, suc, ◌+◌, ◌-◌, ◌%◌, ◌^◌, Bool, true, false, List, [], ◌∷◌, ◌++◌,
  Option, some, none, ltb, leb, ◌==◌, if◌then◌else◌, Text, length, take, drop,
}
use introduction_to_computer.Proxylab.Cache.{max_object_size, size_add, size_sub}

pub data Reading : Type 0 where
  bytes : Text → Reading
  failed : Reading

pub record Forwarding : Type 0 where
  pub response : Text
  pub size : ℕ
  pub leftover : ℕ
  pub sent : List Text

-- `memcpy(buffer + offset, temp, n)` for the `n` bytes of `temp`.
abbrev pub copy_to : Text → (offset : ℕ) → Text → Text
copy_to buffer offset temp = take offset buffer ++ (temp ++ drop (offset + length temp) buffer)

abbrev pub start : Forwarding
start = record { response = []; size = 0; leftover = max_object_size; sent = [] }

-- The body of the loop for `n` bytes in `temp`, or `none` if it writes past the end of `response`.
unfoldable pub forward_block : Text → Forwarding → Option Forwarding
forward_block temp s =
    let n = length temp in
    if ltb 0 s.leftover
    then (if leb (s.size + n) max_object_size
        then some (record {
          response = copy_to s.response s.size temp;
          size = size_add s.size n;
          leftover = size_sub s.leftover n;
          sent = s.sent ++ (temp ∷ []);
        })
        else none)
    else some (record s { size = 0; sent = s.sent ++ (temp ∷ []) })

-- The `ssize_t` that `rio_readnb` returns, -1 for a failure.
abbrev pub returned : Reading → ℤ
returned (bytes buf) = pos (length buf)
returned failed = negsuc 0

-- The bytes that the call leaves in `buf`.
abbrev pub received : Reading → Text
received (bytes buf) = buf
received failed = []

-- The loop. The copy of `n` bytes from `buf` to `temp` leaves both arrays when `n` is larger than
-- they are.
unfoldable pub send_response : List Reading → Forwarding → Option Forwarding
unfolding forward_block
send_response [] s = some s
send_response (reading ∷ rest) s =
    let n = to_size (returned reading) in
    if n == 0
    then some s
    else if ltb max_object_size n
    then none
    else elim (forward_block (received reading) s) [ none ↦ none | some s' ↦ send_response rest s' ]

unfoldable pub send_response_to_client : List Reading → Option Forwarding
unfolding send_response
send_response_to_client readings = send_response readings start
