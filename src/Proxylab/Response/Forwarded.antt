-- ===== src/Proxylab/Response/Forwarded.antt =====
-- What send_response_to_client of proxylab/proxy.c forwards and keeps of a response.
use introduction_to_computer.Common.{
  ◌%◌, ◌^◌, ℕ, zero, suc, ◌+◌, ◌-◌, ◌<◌, ◌≤◌, ◌≡◌, ◌≢◌, ◌∙◌, refl, sym, ap, Bool, true, false, List,
  [], ◌∷◌, ◌++◌, some, none, ltb, leb, ◌==◌, if◌then◌else◌, Text, length, take, drop, arith,
  length-append, append_assoc, append-nil, ==-apart, Option-cases, inl, inr,
}
use introduction_to_computer.Proxylab.Cache.{max_object_size, size_add, size_sub}
use introduction_to_computer.Proxylab.Response.{
  Reading, bytes, failed, Forwarding, start, forward_block, send_response, send_response_to_client,
  copy_to,
}

-- What `rio_readnb` returns for a body that comes in full: blocks that fill the buffer, and then a
-- shorter one.
pub data Reads : Text → List Reading → Type 0 where
  at_end : Reads [] []
  last : {buf : Text} → buf ≢ [] → length buf < max_object_size → Reads buf (bytes buf ∷ [])
  full :
      {buf rest : Text} {readings : List Reading}
      → length buf ≡ max_object_size
      → Reads rest readings
      → Reads (buf ++ rest) (bytes buf ∷ readings)

abbrev pub concat : List Text → Text
concat [] = []
concat (t ∷ ts) = t ++ concat ts

concat-append : (ts : List Text) (t : Text) → concat (ts ++ (t ∷ [])) ≡ concat ts ++ t
concat-append [] t = append-nil t
concat-append (u ∷ ts) t = rw (concat-append ts t, append_assoc u (concat ts) t)

length-nonzero : (t : Text) → t ≢ [] → length t ≢ 0
length-nonzero [] ne = λ e. ne refl
length-nonzero (c ∷ t) ne = λ e. omega (arith, e)

zero_or_zero : (b : Bool) → ◌≡◌ {A = ℕ} (if b then 0 else 0) 0
zero_or_zero true = refl
zero_or_zero false = refl

empty_text : (t : Text) → length t ≡ 0 → t ≡ []
empty_text [] e = refl
empty_text (c ∷ t) e = absurd (omega (arith, e))

-- The state after a block for which there is no room left.
abbrev passed_on : Text → Forwarding → Forwarding
passed_on buf s = record s { size = 0; sent = s.sent ++ (buf ∷ []) }

round_size : (buf : Text) → length buf ≤ max_object_size → length buf % 2 ^ 64 ≡ length buf
round_size buf le = omega (arith, le)

round_test :
    (buf : Text) → length buf ≢ 0 → length buf ≤ max_object_size → (length buf == 0) ≡ false
round_test buf nz le = ground arith

round_without_room :
    (buf : Text) (rs : List Reading) (s : Forwarding)
    → length buf ≢ 0
    → length buf ≤ max_object_size
    → s.leftover ≡ 0
    → send_response (bytes buf ∷ rs) s ≡ send_response rs (passed_on buf s)
unfolding send_response forward_block
round_without_room buf rs s nz le z =
    let test : (length buf == 0) ≡ false = ground arith in
    let small : ltb max_object_size (length buf) ≡ false = ground arith in
    rw (round_size buf le, test, small, z)

-- Behind the first block, the buffer is full.
send_response-rest :
    (body : Text) (readings : List Reading) (s : Forwarding)
    → Reads body readings
    → s.leftover ≡ 0
    → (s' : Forwarding) × (send_response readings s ≡ some s')
      × (concat s'.sent ≡ concat s.sent ++ body)
      × (s'.response ≡ s.response)
      × (s'.size ≡ (if length body == 0 then s.size else 0))
unfolding send_response
send_response-rest body readings s at_end z =
    (s, refl, sym (append-nil (concat s.sent)), refl, refl)
send_response-rest body readings s (last {buf} ne lt) z =
    let nz = length-nonzero buf ne in
    (
      passed_on buf s,
      round_without_room buf [] s nz (omega arith) z,
      concat-append s.sent buf,
      refl,
      ground arith,
    )
send_response-rest body readings s (full {buf} {rest} {readings = rs} len r) z =
    let (s', run, sent, resp, size) = send_response-rest rest rs (passed_on buf s) r z in
    let some_bytes =
      ==-apart (length (buf ++ rest)) 0 (λ e. omega (arith, length-append buf rest, len, e)) in
    (
      s',
      round_without_room buf rs s (omega (arith, len)) (omega (arith, len)) z ∙ run,
      rw (sent, concat-append s.sent buf, append_assoc (concat s.sent) buf rest),
      resp,
      rw some_bytes (size ∙ zero_or_zero (length rest == 0)),
    )

-- The state after the first block.
abbrev kept : Text → Forwarding
kept buf = record {
  response = buf;
  size = length buf;
  leftover = max_object_size - length buf;
  sent = buf ∷ [];
}

drop-nil : (n : ℕ) → drop {A = ℕ} n [] ≡ []
drop-nil zero = refl
drop-nil (suc n) = refl

pub take-all : (t : Text) → take (length t) t ≡ t
take-all [] = refl
take-all (c ∷ t) = ap (λ u. c ∷ u) (take-all t)

first_round :
    (buf : Text) (rs : List Reading)
    → length buf ≢ 0
    → length buf ≤ max_object_size
    → send_response (bytes buf ∷ rs) start ≡ send_response rs (kept buf)
unfolding send_response forward_block
first_round buf rs nz le =
    let test : (length buf == 0) ≡ false = ground arith in
    let small : ltb max_object_size (length buf) ≡ false = ground arith in
    let fits : leb (0 + length buf) max_object_size ≡ true = ground arith in
    let added : size_add 0 (length buf) ≡ length buf = omega arith in
    let left : size_sub max_object_size (length buf) ≡ max_object_size - length buf = omega arith in
    let copied : copy_to [] 0 buf ≡ buf = rw (drop-nil (0 + length buf), append-nil buf) in
    rw (round_size buf le, test, small, fits, added, left, copied)

-- `send_response_to_client` for a response that is received in full: it writes exactly the response
-- to the client, in its order. When the response is no longer than an object of the cache may be,
-- it is kept with its length. Otherwise the size that is reported is 0.
pub send_response_to_client_lem :
    (body : Text) (readings : List Reading)
    → Reads body readings
    → (s : Forwarding) × (send_response_to_client readings ≡ some s)
      × (concat s.sent ≡ body)
      × (length body ≤ max_object_size → (s.size ≡ length body) × (take s.size s.response ≡ body))
      × (max_object_size < length body → s.size ≡ 0)
unfolding send_response_to_client send_response
send_response_to_client_lem body readings at_end =
    (start, refl, refl, λ le. (refl, refl), λ gt. absurd (omega arith))
send_response_to_client_lem body readings (last {buf} ne lt) =
    let nz = length-nonzero buf ne in
    (
      kept buf,
      first_round buf [] nz (omega arith),
      append-nil buf,
      λ le. (refl, take-all buf),
      λ gt. absurd (omega arith),
    )
send_response_to_client_lem body readings (full {buf} {rest} {readings = rs} len r) =
    let (s, run, sent, resp, size) = send_response-rest rest rs (kept buf) r (omega (arith, len)) in
    let total = length-append buf rest in
    (
      s,
      first_round buf rs (omega (arith, len)) (omega (arith, len)) ∙ run,
      rw (sent, append-nil buf),
      λ le.
          let none_left : (length rest == 0) ≡ true = ground (arith, total, len, le) in
          let whole : s.size ≡ length buf = rw none_left at size in
          (
            whole ∙ omega (arith, total, len, le),
            ap (λ n. take n s.response) whole
                ∙ ap (take (length buf)) resp
                ∙ take-all buf
                ∙ sym (append-nil buf)
                ∙ ap (λ e. buf ++ e) (sym (empty_text rest (omega (arith, total, len, le)))),
          ),
      λ gt.
          let some_left : (length rest == 0) ≡ false = ground (arith, total, len, gt) in
          rw some_left at size,
    )

-- Rounds in which something was read, into the buffer.
abbrev pub AllRead : List Reading → Type 0
AllRead [] = Unit {0}
AllRead (bytes t ∷ rs) = (t ≢ []) × (length t ≤ max_object_size) × AllRead rs
AllRead (failed ∷ rs) = ⊥

send_response-failed :
    (before after : List Reading) (s : Forwarding)
    → AllRead before
    → send_response (before ++ (failed ∷ after)) s ≡ none
unfolding send_response
send_response-failed [] after s all = refl
send_response-failed (bytes t ∷ before) after s (ne, le, all) =
    let test = round_test t (length-nonzero t ne) le in
    let size = round_size t le in
    let small : ltb max_object_size (length t) ≡ false = ground arith in
    elim (Option-cases (forward_block t s)) [
      | inl over ↦ rw (size, test, small, over)
      | inr (s', on) ↦ rw (size, test, small, on) (send_response-failed before after s' all)
    ]
send_response-failed (failed ∷ before) after s all = absurd all

-- When `rio_readnb` fails in some round before the end of the response, `send_response_to_client`
-- leaves its buffers, whatever it read before.
pub send_response_to_client-failed :
    (before after : List Reading)
    → AllRead before
    → send_response_to_client (before ++ (failed ∷ after)) ≡ none
unfolding send_response_to_client
send_response_to_client-failed before after all = send_response-failed before after start all
