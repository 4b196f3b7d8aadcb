-- ===== src/Proxylab/Doit.antt =====
-- doit of proxylab/proxy.c as one thread runs it: its two critical sections on the shared cache, and
-- the fetch between them. The shared variables are handed through by value. `server` is what the
-- request to the server leads to: nothing, or what `rio_readnb` returns. The result of `doit` is
-- what is written to the client. The request has been read (Request), and the calls on the lock
-- are left to Threads.
pub mod Contents
pub mod Answers
mod Tests
use introduction_to_computer.Common.{
  ℕ, ◌+◌, Bool, List, [], ◌∷◌, Option, some, none, ◌==◌, if◌then◌else◌, Text, fault, Code, give,
  follow, ◌>>=◌,
}
use introduction_to_computer.Proxylab.Cache.{
  Node, Cache, size_add, search_cache, read_response, add_to_cache,
}
use introduction_to_computer.Proxylab.Response.{Reading, Forwarding, send_response_to_client}

-- `web_cache` and `time_count`.
pub record Shared : Type 0 where
  pub web_cache : Cache
  pub time_count : ℕ

-- The first section: the length and the response for a URI that is found.
unfoldable pub look_up : ℕ → Shared → Text → Code Node (Shared × Option (ℕ × Text))
look_up fuel s uri = do
  found ← search_cache fuel s.web_cache uri
  if found == 0 then give (s, none) else do
    response ← read_response found (size_add s.time_count 1)
    give (record s { time_count = size_add s.time_count 1 }, some response)

-- The second section: the response is added if it is still missing.
unfoldable pub keep_response :
    (fuel elem : ℕ) → Shared → (uri response : Text) → (size : ℕ) → Code Node Shared
keep_response fuel elem s uri response size = do
  found ← search_cache fuel s.web_cache uri
  if found == 0
      then (do
        cache ← add_to_cache fuel elem s.web_cache uri response size (size_add s.time_count 1)
        give (record { web_cache = cache; time_count = size_add s.time_count 1 }))
      else give s

-- What follows a fetch that came to an end.
unfoldable pub after_fetch :
    (fuel elem : ℕ) → Shared → Text → Forwarding → Code Node (Shared × List Text)
after_fetch fuel elem s uri f =
    if f.size == 0
    then give (s, f.sent)
    else do s' ← keep_response fuel elem s uri f.response f.size; give (s', f.sent)

-- `none` is a copy past the end of a buffer.
unfoldable pub after_response :
    (fuel elem : ℕ) → Shared → Text → Option Forwarding → Code Node (Shared × List Text)
after_response fuel elem s uri none = λ m. fault
after_response fuel elem s uri (some f) = after_fetch fuel elem s uri f

unfoldable pub fetch :
    (fuel elem : ℕ) → Shared → Text → Option (List Reading) → Code Node (Shared × List Text)
fetch fuel elem s uri none = give (s, [])
fetch fuel elem s uri (some readings) =
    after_response fuel elem s uri (send_response_to_client readings)

-- `doit` from the search in the cache on.
unfoldable pub doit :
    (fuel elem : ℕ)
    → Shared
    → Text
    → (server : Option (List Reading)) → Code Node (Shared × List Text)
doit fuel elem s uri server = do
  (s', found) ← look_up fuel s uri
  elim found [
    | some (len, response) ↦ give (s', response ∷ [])
    | none ↦ fetch fuel elem s' uri server
  ]
