-- ===== src/Proxylab/Request/Line.antt =====
-- The request line that read_request of proxylab/proxy.c takes apart, and the request for it.
use introduction_to_computer.Common.{
  ℕ, suc, ◌≡◌, ◌≢◌, ◌∙◌, refl, ap, Bool, true, false, List, [], ◌∷◌, ◌++◌, Option, some, none, ltb,
  ◌==◌, if◌then◌else◌, Text, same_text, length, codes, cut_at, starts_with, contains, Bool-cases,
  inl, inr,
}
use introduction_to_computer.Proxylab.Request.{
  Request, unwritten, maxline, crlf, is_space, skip_space, scan_word, scan_words, scan_uri,
  host_and_path, split_host, strcat, after_uri, after_words, with_request, with_host, split_uri,
  answer_method, build_get, read_request,
}
use introduction_to_computer.Proxylab.Request.Headers.{NoBlank, whole_request, build_get-whole}

-- No byte of the text is in the class `p`.
abbrev pub Free : (ℕ → Bool) → Text → Type 0
Free p [] = Unit {0}
Free p (c ∷ cs) = (p c ≡ false) × Free p cs

pub Free-append : (p : ℕ → Bool) (a b : Text) → Free p a → Free p b → Free p (a ++ b)
Free-append p [] b fa fb = fb
Free-append p (c ∷ a) b (f, fa) fb = (f, Free-append p a b fa fb)

pub cut_at-append :
    (p : ℕ → Bool) (a : Text) (c : ℕ) (rest : Text)
    → Free p a
    → p c ≡ true
    → cut_at p (a ++ (c ∷ rest)) ≡ (a, c ∷ rest)
unfolding cut_at
cut_at-append p [] c rest f hit = rw hit
cut_at-append p (d ∷ a) c rest (outside, f) hit = rw (outside, cut_at-append p a c rest f hit)

pub cut_at-all : (p : ℕ → Bool) (a : Text) → Free p a → cut_at p a ≡ (a, [])
unfolding cut_at
cut_at-all p [] f = refl
cut_at-all p (d ∷ a) (outside, f) = rw (outside, cut_at-all p a f)

-- A word, up to a white space.
pub scan_word-append :
    (a : Text) (c : ℕ) (rest : Text)
    → a ≢ []
    → Free is_space a
    → is_space c ≡ true
    → scan_word (a ++ (c ∷ rest)) ≡ some (a, c ∷ rest)
unfolding scan_word skip_space
scan_word-append [] c rest ne f sp = absurd (ne refl)
scan_word-append (d ∷ a) c rest ne (outside, f) sp =
    rw (scan_word, skip_space, outside, cut_at-append is_space (d ∷ a) c rest (outside, f) sp)

pub scan_word-all : (a : Text) → a ≢ [] → Free is_space a → scan_word a ≡ some (a, [])
unfolding scan_word skip_space
scan_word-all [] ne f = absurd (ne refl)
scan_word-all (d ∷ a) ne (outside, f) =
    rw (scan_word, skip_space, outside, cut_at-all is_space (d ∷ a) (outside, f))

abbrev pub is_slash : ℕ → Bool
is_slash c = c == b'/'

abbrev pub is_colon : ℕ → Bool
is_colon c = c == b':'

-- A host as it may stand in a URI, without a port.
pub record IsHost (host : Text) : Type 0 where
  pub nonempty : host ≢ []
  pub no_space : Free is_space host
  pub no_slash : Free is_slash host
  pub no_colon : Free is_colon host

-- The request line for the method GET.
abbrev pub get_line : (host path version : Text) → Text
get_line host path version =
    codes "GET " ++ ((codes "http://" ++ (host ++ (b'/' ∷ path))) ++ (32 ∷ (version ++ crlf)))

scan_uri-host :
    (host path : Text)
    → IsHost host
    → Free is_space path
    → scan_uri (codes "http://" ++ (host ++ (b'/' ∷ path))) ≡ (some host, some (b'/' ∷ path))
unfolding scan_uri starts_with
scan_uri-host [] path h f = absurd (h.nonempty refl)
scan_uri-host (c ∷ cs) path h f =
    ap host_and_path (cut_at-append is_slash (c ∷ cs) b'/' path h.no_slash refl)
    ∙ rw (scan_word-all (b'/' ∷ path) (λ e. cc e) (refl, f))

split_host-name : (host : Text) → IsHost host → split_host host ≡ (codes "80", some host)
unfolding split_host
split_host-name host h = rw (split_host, cut_at-all is_colon host h.no_colon)

scan_words-first :
    (n : ℕ) (a : Text) (c : ℕ) (rest : Text)
    → a ≢ []
    → Free is_space a
    → is_space c ≡ true
    → scan_words (suc n) (a ++ (c ∷ rest)) ≡ a ∷ scan_words n (c ∷ rest)
unfolding scan_words
scan_words-first n a c rest ne f sp = rw (scan_words, scan_word-append a c rest ne f sp)

-- One word more, behind a blank.
scan_words-more :
    (n : ℕ) (a : Text) (c : ℕ) (rest : Text)
    → a ≢ []
    → Free is_space a
    → is_space c ≡ true
    → scan_words (suc n) (32 ∷ (a ++ (c ∷ rest))) ≡ a ∷ scan_words n (c ∷ rest)
unfolding scan_words scan_word skip_space
scan_words-more n a c rest ne f sp = scan_words-first n a c rest ne f sp

-- The three words of the request line.
scan_words-line :
    (host path version : Text)
    → IsHost host
    → Free is_space path
    → version ≢ []
    → Free is_space version
    → scan_words 3 (get_line host path version)
      ≡ codes "GET" ∷ (codes "http://" ++ (host ++ (b'/' ∷ path))) ∷ version ∷ []
unfolding scan_words
scan_words-line host path version h f ne fv =
    let uri = codes "http://" ++ (host ++ (b'/' ∷ path)) in
    let free : Free is_space uri =
      Free-append is_space (codes "http://") (host ++ (b'/' ∷ path))
        (refl, (refl, (refl, (refl, (refl, (refl, (refl, tt)))))))
        (Free-append is_space host (b'/' ∷ path) h.no_space (refl, f)) in
    let rest = uri ++ (32 ∷ (version ++ crlf)) in
    scan_words-first 2 (codes "GET") 32 rest (λ e. cc e) (refl, (refl, (refl, tt))) refl
    ∙ ap (λ ws. codes "GET" ∷ ws)
        (scan_words-more 1 uri 32 (version ++ crlf) (λ e. cc e) free refl
          ∙ ap (λ ws. uri ∷ ws) (scan_words-more 0 version 13 (10 ∷ []) ne fv refl))

-- What `read_request` writes for a host without a port, before the request and with it.
abbrev split_only : (host path : Text) → Request
split_only host path = record {
  host = some host;
  hostname = some host;
  port = some (codes "80");
  path = some (b'/' ∷ path);
  uri = some (codes "http://" ++ (host ++ (b'/' ∷ path)));
  req = none;
}

abbrev pub parsed : (host path req : Text) → Request
parsed host path req = record (split_only host path) { req = some req }

split_uri-host :
    (host path : Text)
    → IsHost host
    → Free is_space path
    → split_uri (codes "http://" ++ (host ++ (b'/' ∷ path))) ≡ some (split_only host path)
unfolding split_uri with_host contains starts_with
split_uri-host host path h f =
    let uri = codes "http://" ++ (host ++ (b'/' ∷ path)) in
    ap (with_host uri) (scan_uri-host host path h f) ∙ rw (split_host-name host h)

after_uri-split :
    (method uri : Text) (lines : List Text) {r : Request}
    → split_uri uri ≡ some r
    → after_uri method uri lines ≡ answer_method method lines r
unfolding after_uri
after_uri-split method uri lines e = rw (after_uri, e)

after_uri-unsplit :
    (method uri : Text) (lines : List Text)
    → split_uri uri ≡ none
    → after_uri method uri lines ≡ none
unfolding after_uri
after_uri-unsplit method uri lines e = rw (after_uri, e)

after_uri-get :
    (host path : Text) (hs more : List Text)
    → IsHost host
    → Free is_space path
    → NoBlank hs
    → after_uri (codes "GET") (codes "http://" ++ (host ++ (b'/' ∷ path))) (hs ++ (crlf ∷ more))
      ≡ with_request (split_only host path) [] (strcat [] (whole_request host (b'/' ∷ path) hs))
unfolding answer_method same_text
after_uri-get host path hs more h f nb =
    after_uri-split (codes "GET") (codes "http://" ++ (host ++ (b'/' ∷ path))) (hs ++ (crlf ∷ more))
      (split_uri-host host path h f)
    ∙ ap (with_request (split_only host path) []) (build_get-whole host (b'/' ∷ path) hs more nb)

parsed_if :
    (b : Bool) (host path req : Text)
    → with_request (split_only host path) [] (if b then some req else none) ≡ (
        let r : Option (Request × List Text) = some (parsed host path req, []) in
        if b then r else none)
parsed_if true host path req = refl
parsed_if false host path req = refl

-- `read_request` for a line of the method GET whose URI names a host without a port, and a path,
-- with headers up to an empty line: the request for the server is the method with the path, the
-- host, the headers as they are passed on, and an empty line, and nothing is sent back. When the
-- request does not fit into its buffer, it is written past its end.
pub read_request_lem :
    (host path version : Text) (hs more : List Text)
    → IsHost host
    → Free is_space path
    → version ≢ []
    → Free is_space version
    → NoBlank hs
    → read_request (get_line host path version) (hs ++ (crlf ∷ more)) ≡ (
        let req = whole_request host (b'/' ∷ path) hs in
        let result : Option (Request × List Text) = some (parsed host path req, []) in
        if ltb (length req) maxline then result else none)
unfolding read_request after_words
read_request_lem host path version hs more h f ne fv nb =
    ap (after_words (hs ++ (crlf ∷ more))) (scan_words-line host path version h f ne fv)
    ∙ (after_uri-get host path hs more h f nb
        ∙ parsed_if (ltb (length (whole_request host (b'/' ∷ path) hs)) maxline) host path
            (whole_request host (b'/' ∷ path) hs))

-- `read_request` for a line of the method GET whose URI does not begin with `http://`, whatever
-- else it is: it reads a host or a path that was never written.
pub read_request-direct :
    (line uri version : Text) (lines : List Text)
    → scan_words 3 line ≡ codes "GET" ∷ uri ∷ version ∷ []
    → starts_with (codes "http://") uri ≡ false
    → read_request line lines ≡ none
unfolding read_request after_words split_uri answer_method build_get scan_uri with_host same_text
read_request-direct line uri version lines words other =
    ap (after_words lines) words ∙ elim (Bool-cases (contains uri (codes "://"))) [
      | inl scheme ↦
          after_uri-unsplit (codes "GET") uri lines (rw (split_uri, scheme, scan_uri, other))
      | inr no_scheme ↦
          after_uri-split (codes "GET") uri lines {r = record unwritten { uri = some uri }}
            (rw (split_uri, no_scheme))
    ]
