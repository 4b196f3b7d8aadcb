-- ===== src/Proxylab/Request.antt =====
-- read_request of proxylab/proxy.c: the request line of a client is taken apart, and the request for
-- the server is built. The lines that `rio_readlineb` of the library csapp.c returns are the
-- arguments. A buffer that was never written is `none`. The whole result is `none` where the C code
-- reads such a buffer or writes past the end of one.
pub mod Headers
pub mod Line
mod Tests
use introduction_to_computer.Common.{
  ℕ, zero, suc, ◌+◌, Bool, true, false, ◌||◌, ◌&&◌, List, [], ◌∷◌, ◌++◌, Option, some, none, ltb,
  leb, ◌==◌, if◌then◌else◌, Text, same_text, length, codes, starts_with, contains, cut_at, drop,
}

abbrev pub maxline : ℕ
maxline = 8192

abbrev pub crlf : Text
crlf = codes "\r\n"

abbrev pub user_agent_header : Text
user_agent_header =
    codes "User-Agent: Mozilla/5.0 (X11; Linux x86_64; rv:3.10.0) Gecko/20191101 Firefox/63.0.1\r\n"

abbrev pub connection_header : Text
connection_header = codes "Connection: close\r\n"

abbrev pub proxy_connection_header : Text
proxy_connection_header = codes "Proxy-Connection: close\r\n"

abbrev pub version_head : Text
version_head = codes "HTTP/1.0\r\n"

-- What `read_request` writes through its pointers.
pub record Request : Type 0 where
  pub host : Option Text
  pub hostname : Option Text
  pub port : Option Text
  pub path : Option Text
  pub uri : Option Text
  pub req : Option Text

abbrev pub unwritten : Request
unwritten = record {
  host = none;
  hostname = none;
  port = none;
  path = none;
  uri = none;
  req = none;
}

-- The white space of `sscanf`.
abbrev pub is_space : ℕ → Bool
is_space c = c == 32 || (leb 9 c && leb c 13)

unfoldable pub skip_space : Text → Text
skip_space [] = []
skip_space (c ∷ cs) = if is_space c then skip_space cs else c ∷ cs

-- `%s`: the word, and what follows it; `none` at the end of the text.
unfoldable pub scan_word : Text → Option (Text × Text)
scan_word text = elim (skip_space text) [ [] ↦ none | c ∷ cs ↦ some (cut_at is_space (c ∷ cs)) ]

-- `sscanf(buf, "%s %s %s", method, uri, version)`: the words that are there.
unfoldable pub scan_words : ℕ → Text → List Text
scan_words zero text = []
scan_words (suc n) text = elim (scan_word text) [
  | none ↦ []
  | some (w, rest) ↦ w ∷ scan_words n rest
]

-- A run that must not be empty.
abbrev pub run_of : Text → Option Text
run_of [] = none
run_of (c ∷ cs) = some (c ∷ cs)

-- `%[^/]%s` on a text that is cut at the first slash.
abbrev pub host_and_path : Text × Text → Option Text × Option Text
host_and_path ([], rest) = (none, none)
host_and_path (c ∷ cs, rest) =
    (some (c ∷ cs), elim (scan_word rest) [ none ↦ none | some (w, _) ↦ some w ])

-- `sscanf(uri, "http://%[^/]%s", host, path)`
unfoldable pub scan_uri : Text → Option Text × Option Text
scan_uri uri =
    if starts_with (codes "http://") uri
    then host_and_path (cut_at (λ c. c == b'/') (drop 7 uri))
    else (none, none)

-- The port and the host name.
unfoldable pub split_host : Text → Text × Option Text
split_host host =
    let (name, rest) = cut_at (λ c. c == b':') host in
    elim rest [ [] ↦ (codes "80", some host) | colon ∷ port ↦ (port, run_of name) ]

-- `strcat(a, b)` for a buffer of `MAXLINE` bytes, with the terminating 0.
abbrev pub strcat : Text → Text → Option Text
strcat a b = if ltb (length (a ++ b)) maxline then some (a ++ b) else none

-- Reading a buffer, or going on with what a call wrote.
infixr 5 ◌>=>◌
abbrev pub ◌>=>◌ : Option Text → (Text → Option Text) → Option Text
none >=> k = none
some t >=> k = k t

-- What a header of the client adds to the request.
unfoldable pub forwarded_header : Text → Text
unfolding contains
forwarded_header buf =
    if contains buf (codes "User-Agent")
    then user_agent_header
    else if contains buf (codes "Proxy-Connection")
    then proxy_connection_header
    else if contains buf (codes "Connection")
    then connection_header
    else if contains buf (codes "Host") || contains buf (codes "GET")
    then []
    else buf

unfoldable pub header_loop : List Text → (req : Text) → Option Text
unfolding forwarded_header same_text
header_loop [] req = strcat req crlf
header_loop (buf ∷ lines) req =
    if same_text buf crlf
    then strcat req crlf
    else strcat req (forwarded_header buf) >=> λ req'. header_loop lines req'

-- The request for the method GET, from the buffers `host` and `path`.
unfoldable pub build_get : (host path : Option Text) → (lines : List Text) → Option Text
build_get host path lines = path >=> λ p. strcat (codes "GET ") p >=> λ tmp.
    strcat tmp (codes " ") >=> λ tmp. strcat tmp version_head >=> λ req. host >=> λ h.
    strcat (codes "Host: ") h >=> λ tmp.
    strcat tmp crlf >=> λ tmp. strcat req tmp >=> λ req. header_loop lines req

-- The status that `clienterror` sends for the method POST.
abbrev pub method_errors : Text → List Text
method_errors method = if same_text method (codes "POST") then codes "501" ∷ [] else []

abbrev pub with_request : Request → List Text → Option Text → Option (Request × List Text)
with_request r errors none = none
with_request r errors (some req) = some (record r { req = some req }, errors)

-- The buffers behind the scan of the URI for a host and a path: the host is searched for a port.
unfoldable pub with_host : (uri : Text) → Option Text × Option Text → Option Request
with_host uri (none, path) = none
with_host uri (some host, path) =
    let (port, hostname) = split_host host in
    some (record {
      host = some host;
      hostname = hostname;
      port = some port;
      path = path;
      uri = some uri;
      req = none;
    })

-- The part of `read_request` that takes the URI apart.
unfoldable pub split_uri : (uri : Text) → Option Request
split_uri uri =
    if contains uri (codes "://")
    then with_host uri (scan_uri uri)
    else some (record unwritten { uri = some uri })

-- The part of `read_request` behind that.
unfoldable pub answer_method : (method : Text) → List Text → Request → Option (Request × List Text)
answer_method method lines r =
    if same_text method (codes "GET")
    then with_request r (method_errors method) (build_get r.host r.path lines)
    else some (r, method_errors method)

-- The part of `read_request` behind the request line.
unfoldable pub after_uri : (method uri : Text) → List Text → Option (Request × List Text)
after_uri method uri lines = elim (split_uri uri) [
  | none ↦ none
  | some r ↦ answer_method method lines r
]

-- The words of the request line, and the lines behind it.
unfoldable pub after_words : List Text → List Text → Option (Request × List Text)
after_words lines [] = some (unwritten, codes "400" ∷ [])
after_words lines (method ∷ []) = some (unwritten, codes "400" ∷ [])
after_words lines (method ∷ uri ∷ []) = some (record unwritten { uri = some uri }, codes "400" ∷ [])
after_words lines (method ∷ uri ∷ version ∷ more) = after_uri method uri lines

unfoldable pub read_request : (line : Text) → List Text → Option (Request × List Text)
read_request line lines = after_words lines (scan_words 3 line)
