-- ===== src/Proxylab/Doit/Tests.antt =====
-- The theorem on doit of proxylab/proxy.c at a concrete input: a first request with an empty cache.
use introduction_to_computer.Common.{
  ◌≡◌, refl, sym, ap, List, [], ◌∷◌, some, none, Text, codes, arith, Memory, Run, ended,
}
use introduction_to_computer.Proxylab.Cache.{Node, Cache, init_cache, make_room}
use introduction_to_computer.Proxylab.Cache.Linked.{Blocks}
use introduction_to_computer.Proxylab.Response.{Reading, bytes}
use introduction_to_computer.Proxylab.Response.Forwarded.{last, concat}
use introduction_to_computer.Proxylab.Doit.{Shared, doit}
use introduction_to_computer.Proxylab.Doit.Answers.{Right, doit_lem}

abbrev origin : Text → Text
origin uri = codes "HTTP/1.0 200 OK"

abbrev uri : Text
uri = codes "http://a.b/x"

abbrev readings : List Reading
readings = bytes (codes "HTTP/1.0 200 OK") ∷ []

abbrev empty : Memory Node
empty p = none

abbrev shared : Shared
shared = record { web_cache = init_cache; time_count = 0 }

empty-Right : Right origin empty shared []
unfolding init_cache
empty-Right = record {
  stands = record { linked = tt; head = refl; space = refl };
  coherent = record { fresh = tt; unique = tt; young = tt };
}

abbrev memory_of : Run Node Cache → Memory Node
memory_of (ended c m) = m
memory_of _ = empty

no_eviction :
    (c : Cache) (m1 : Memory Node) → make_room 1 1 15 init_cache empty ≡ ended c m1 → m1 30 ≡ none
unfolding make_room init_cache
no_eviction c m1 e = ap (λ r. memory_of r 30) (sym e)

doit_lem_example :
    (s' : Shared) × (sent : List Text) × (m' : Memory Node) × (ys : Blocks) × (doit 1 30 shared uri
        (some readings)
        empty
      ≡ ended (s', sent) m')
    × (concat sent ≡ codes "HTTP/1.0 200 OK")
    × Right origin m' s' ys
doit_lem_example =
    doit_lem origin 1 30 empty shared [] uri readings empty-Right (omega arith) (omega arith)
      (last (λ e. cc e) (omega arith)) (λ e. cc e) no_eviction
