-- ===== src/Proxylab/Response/Tests.antt =====
-- The theorems on send_response_to_client of proxylab/proxy.c at concrete inputs.
use introduction_to_computer.Common.{
  ℕ, ◌<◌, ◌≤◌, ◌≡◌, List, [], ◌∷◌, ◌++◌, some, none, Text, length, take, replicate,
  length-replicate, arith,
}
use introduction_to_computer.Proxylab.Cache.{max_object_size}
use introduction_to_computer.Proxylab.Response.{
  Reading, bytes, failed, Forwarding, send_response_to_client,
}
use introduction_to_computer.Proxylab.Response.Forwarded.{
  Reads, last, full, concat, send_response_to_client_lem, send_response_to_client-failed,
}

-- A block that fills the buffer, and one byte.
abbrev block : Text
block = replicate max_object_size b'x'

abbrev long_readings : List Reading
long_readings = bytes block ∷ bytes (b'y' ∷ []) ∷ []

long-Reads : Reads (block ++ (b'y' ∷ [])) long_readings
long-Reads = full (length-replicate {A = ℕ} max_object_size b'x') (last (λ e. cc e) (omega arith))

send_response_to_client_lem_example :
    (s : Forwarding) × (send_response_to_client long_readings ≡ some s)
    × (concat s.sent ≡ block ++ (b'y' ∷ []))
    × (length (block ++ (b'y' ∷ [])) ≤ max_object_size
        → (s.size ≡ length (block ++ (b'y' ∷ [])))
          × (take s.size s.response ≡ block ++ (b'y' ∷ [])))
    × (max_object_size < length (block ++ (b'y' ∷ [])) → s.size ≡ 0)
send_response_to_client_lem_example =
    send_response_to_client_lem (block ++ (b'y' ∷ [])) long_readings long-Reads

send_response_to_client-failed_example :
    send_response_to_client (bytes (b'a' ∷ []) ∷ failed ∷ []) ≡ none
send_response_to_client-failed_example =
    send_response_to_client-failed (bytes (b'a' ∷ []) ∷ []) [] ((λ e. cc e), omega arith, tt)
