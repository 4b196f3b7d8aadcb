-- ===== src/Proxylab/Doit/Answers.antt =====
-- What a client of proxylab/proxy.c is answered, and what the cache holds then.
use introduction_to_computer.Common.{
  ℕ, ◌+◌, ◌<◌, ◌≤◌, ◌≡◌, ◌≢◌, ◌∙◌, sym, ap, List, [], ◌∷◌, Option, some, none, ◌==◌, Text, take,
  length, arith, Memory, Bool-cases, inl, inr, leb, leb→le, ==-apart, ==-same, ==-differ,
  append-nil, ended,
}
use introduction_to_computer.Proxylab.Cache.{
  Node, Cache, min_age, max_cache_size, max_object_size, size_add, make_room,
}
use introduction_to_computer.Proxylab.Cache.Linked.{Blocks, Stands}
use introduction_to_computer.Proxylab.Cache.Search.{find_uri, search_cache_lem}
use introduction_to_computer.Proxylab.Cache.Free.{used_at, read_response_lem}
use introduction_to_computer.Proxylab.Cache.Add.{add_to_cache_lem, new_block}
use introduction_to_computer.Proxylab.Response.{Reading, Forwarding, send_response_to_client}
use introduction_to_computer.Proxylab.Response.Forwarded.{
  Reads, concat, take-all, send_response_to_client_lem,
}
use introduction_to_computer.Proxylab.Doit.{
  Shared, look_up, keep_response, after_fetch, after_response, fetch, doit,
}
use introduction_to_computer.Proxylab.Doit.Contents.{
  Coherent, Coherent-used_at, Coherent-Evicted, Coherent-add, find_uri-Other, find_uri-block,
}

-- The cache stands for contents that agree with the servers.
pub record Right (origin : Text → Text) (m : Memory Node) (s : Shared) (xs : Blocks) : Type 0 where
  pub stands : Stands m s.web_cache xs
  pub coherent : Coherent origin xs

module _ (origin : Text → Text) (fuel : ℕ) (m : Memory Node) (s : Shared) (xs : Blocks) (uri : Text)
    (right : Right origin m s xs) (lt : length xs < fuel) (soon : s.time_count + 1 < min_age) where
  time : size_add s.time_count 1 ≡ s.time_count + 1
  time = omega (arith, soon)

  -- A hit.
  look_up-hit :
      find_uri uri xs ≢ 0
      → (s' : Shared) × (m' : Memory Node) × (ys : Blocks) × (len : ℕ) × (look_up fuel s uri m
          ≡ ended (s', some (len, origin uri)) m')
        × Right origin m' s' ys
  unfolding look_up
  look_up-hit ne =
      let test = ==-apart (find_uri uri xs) 0 ne in
      let search = search_cache_lem fuel m s.web_cache xs uri right.stands lt in
      let (b, at, answer) =
        find_uri-block origin m 0 uri xs right.stands.linked right.coherent.fresh ne in
      let (m', run, st) =
        read_response_lem m s.web_cache xs (find_uri uri xs) (s.time_count + 1) b right.stands at in
      (
        record s { time_count = s.time_count + 1 },
        m',
        used_at (find_uri uri xs) (s.time_count + 1) xs,
        b.size,
        rw (search, test, time, run, answer),
        record {
          stands = st;
          coherent =
              Coherent-used_at origin (find_uri uri xs) (s.time_count + 1) xs soon right.coherent;
        },
      )

  look_up-miss : find_uri uri xs ≡ 0 → look_up fuel s uri m ≡ ended (s, none) m
  unfolding look_up
  look_up-miss e = rw (search_cache_lem fuel m s.web_cache xs uri right.stands lt, e)

  keep_response-added :
      (elem : ℕ) (response : Text) (size : ℕ)
      → find_uri uri xs ≡ 0
      → take size response ≡ origin uri
      → size ≡ length (origin uri)
      → size ≤ max_cache_size
      → elem ≢ 0
      → ((c : Cache) (m1 : Memory Node)
          → make_room fuel fuel size s.web_cache m ≡ ended c m1
          → m1 elem ≡ none)
      → (s' : Shared) × (m' : Memory Node) × (ys : Blocks) × (keep_response fuel elem s uri response
            size m
          ≡ ended s' m')
        × Right origin m' s' ys
  unfolding keep_response
  keep_response-added elem response size e body len small nz unused =
      let search = search_cache_lem fuel m s.web_cache xs uri right.stands lt in
      let b = new_block uri response size (s.time_count + 1) in
      let (cache', m', ys, run, ev, st) =
        add_to_cache_lem fuel m s.web_cache xs elem uri response size (s.time_count + 1)
          right.stands right.coherent.young small lt nz unused in
      let (c, o) =
        Coherent-Evicted origin uri size ev right.coherent
          (find_uri-Other m 0 uri xs right.stands.linked e) in
      let kept : take size (take size response) ≡ origin uri =
        ap (take size) body ∙ ap (λ n. take n (origin uri)) len ∙ take-all (origin uri) in
      (
        record { web_cache = cache'; time_count = s.time_count + 1 },
        m',
        (elem, b) ∷ ys,
        rw (search, e, time, run),
        record { stands = st; coherent = Coherent-add origin elem b ys kept soon o c },
      )

fetch-sent :
    (fuel elem : ℕ) (m : Memory Node) (s : Shared) (uri : Text) (readings : List Reading)
    (f : Forwarding)
    → send_response_to_client readings ≡ some f
    → fetch fuel elem s uri (some readings) m ≡ after_fetch fuel elem s uri f m
unfolding fetch after_response
fetch-sent fuel elem m s uri readings f sending =
    ap (λ o. after_response fuel elem s uri o m) sending

doit-miss :
    (fuel elem : ℕ) (m : Memory Node) (s : Shared) (uri : Text) (server : Option (List Reading))
    → look_up fuel s uri m ≡ ended (s, none) m
    → doit fuel elem s uri server m ≡ fetch fuel elem s uri server m
unfolding doit
doit-miss fuel elem m s uri server miss = rw miss

-- The end of a fetch: a response that is reported as empty is not added.
after_fetch-Right :
    (origin : Text → Text) (fuel elem : ℕ) (m : Memory Node) (s : Shared) (xs : Blocks) (uri : Text)
    (f : Forwarding)
    → Right origin m s xs
    → length xs < fuel
    → s.time_count + 1 < min_age
    → find_uri uri xs ≡ 0
    → (length (origin uri) ≤ max_object_size
        → (f.size ≡ length (origin uri)) × (take f.size f.response ≡ origin uri))
    → (max_object_size < length (origin uri) → f.size ≡ 0)
    → elem ≢ 0
    → ((c : Cache) (m1 : Memory Node)
        → make_room fuel fuel (length (origin uri)) s.web_cache m ≡ ended c m1
        → m1 elem ≡ none)
    → (s' : Shared) × (m' : Memory Node) × (ys : Blocks) × (after_fetch fuel elem s uri f m
        ≡ ended (s', f.sent) m')
      × Right origin m' s' ys
unfolding after_fetch
after_fetch-Right origin fuel elem m s xs uri f right lt soon missing short long nz unused =
    elim (Bool-cases (f.size == 0)) [
      | inl empty ↦ (s, m, xs, rw empty, right)
      | inr full ↦
          let fits : length (origin uri) ≤ max_object_size =
            elim (Bool-cases (leb (length (origin uri)) max_object_size)) [
              | inl le ↦ leb→le (length (origin uri)) max_object_size le
              | inr gt ↦ absurd (==-differ f.size 0 full (long (ground arith)))
            ] in
          let (len, body) = short fits in
          let (s', m', ys, run, r) =
            keep_response-added origin fuel m s xs uri right lt soon elem f.response f.size missing
              body len (omega (arith, len, fits)) nz
              (λ c m1 e.
                unused c m1 (ap (λ n. make_room fuel fuel n s.web_cache m) (sym len) ∙ e)) in
          (s', m', ys, rw (full, run), r)
    ]

-- `doit` on a cache that agrees with the servers, where the server of the URI is reached and answers
-- in full, with more fuel than blocks and as long as the time counter is small: whether or not the
-- URI is in the cache, what the client is sent is what the server answers, and the cache
-- agrees with the servers again, with one block for a URI.
pub doit_lem :
    (origin : Text → Text) (fuel elem : ℕ) (m : Memory Node) (s : Shared) (xs : Blocks) (uri : Text)
    (readings : List Reading)
    → Right origin m s xs
    → length xs < fuel
    → s.time_count + 1 < min_age
    → Reads (origin uri) readings
    → elem ≢ 0
    → ((c : Cache) (m1 : Memory Node)
        → make_room fuel fuel (length (origin uri)) s.web_cache m ≡ ended c m1
        → m1 elem ≡ none)
    → (s' : Shared) × (sent : List Text) × (m' : Memory Node) × (ys : Blocks) × (doit fuel elem s
          uri
          (some readings)
          m
        ≡ ended (s', sent) m')
      × (concat sent ≡ origin uri)
      × Right origin m' s' ys
unfolding doit
doit_lem origin fuel elem m s xs uri readings right lt soon reads nz unused =
    elim (Bool-cases (find_uri uri xs == 0)) [
      | inr there ↦
          let (s', m', ys, len, run, r) =
            look_up-hit origin fuel m s xs uri right lt soon
              (==-differ (find_uri uri xs) 0 there) in
          (s', origin uri ∷ [], m', ys, rw run, append-nil (origin uri), r)
      | inl none_there ↦
          let missing = ==-same (find_uri uri xs) 0 none_there in
          let miss = look_up-miss origin fuel m s xs uri right lt soon missing in
          let (f, sending, sent, short, long) =
            send_response_to_client_lem (origin uri) readings reads in
          let (s', m', ys, run, r) =
            after_fetch-Right origin fuel elem m s xs uri f right lt soon missing short long nz
              unused in
          (
            s',
            f.sent,
            m',
            ys,
            doit-miss fuel elem m s uri (some readings) miss
                ∙ fetch-sent fuel elem m s uri readings f sending
                ∙ run,
            sent,
            r,
          )
    ]
