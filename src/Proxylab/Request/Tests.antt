-- ===== src/Proxylab/Request/Tests.antt =====
-- Runs of the model of read_request of proxylab/proxy.c, and its theorems at concrete inputs.
use introduction_to_computer.Common.{
  ◌≡◌, refl, List, [], ◌∷◌, ◌++◌, Option, some, none, ltb, if◌then◌else◌, Text, length, codes,
  same_text, contains, cut_at, starts_with,
}
use introduction_to_computer.Proxylab.Request.{
  Request, maxline, crlf, read_request, scan_words, scan_word, skip_space, forwarded_header,
  split_host,
}
use introduction_to_computer.Proxylab.Request.Headers.{whole_request, forwarded}
use introduction_to_computer.Proxylab.Request.Line.{
  IsHost, get_line, parsed, read_request_lem, read_request-direct,
}

abbrev host : Text
host = codes "a.b"

abbrev path : Text
path = codes "x"

abbrev version : Text
version = codes "HTTP/1.1"

abbrev headers : List Text
headers = codes "Host: a.b\r\n" ∷ codes "Accept: */*\r\n" ∷ codes "Connection: keep-alive\r\n" ∷ []

host-IsHost : IsHost host
host-IsHost = record {
  nonempty = λ e. cc e;
  no_space = (refl, (refl, (refl, tt)));
  no_slash = (refl, (refl, (refl, tt)));
  no_colon = (refl, (refl, (refl, tt)));
}

-- The host line of the client is dropped, and its connection header replaced.
forwards : forwarded headers ≡ codes "Accept: */*\r\nConnection: close\r\n"
unfolding forwarded_header contains starts_with
forwards = refl

-- A port in the URI.
splits : split_host (codes "a.b:8080") ≡ (codes "8080", some (codes "a.b"))
unfolding split_host cut_at
splits = refl

read_request_lem_example : read_request (get_line host path version) (headers ++ (crlf ∷ [])) ≡ (
    let req = whole_request host (b'/' ∷ path) headers in
    let result : Option (Request × List Text) = some (parsed host path req, []) in
    if ltb (length req) maxline then result else none)
unfolding same_text
read_request_lem_example =
    read_request_lem host path version headers [] host-IsHost (refl, tt) (λ e. cc e)
      (refl, (refl, (refl, (refl, (refl, (refl, (refl, (refl, tt)))))))) (refl, (refl, (refl, tt)))

read_request-direct_example : read_request (codes "GET / HTTP/1.1\r\n") [] ≡ none
unfolding scan_words scan_word skip_space cut_at contains starts_with
read_request-direct_example =
    read_request-direct (codes "GET / HTTP/1.1\r\n") (codes "/") version [] refl refl
