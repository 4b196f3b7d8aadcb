-- ===== src/Proxylab/Tiny/Files.antt =====
-- A whole request for a file in proxylab/tiny/tiny.c.
use introduction_to_computer.Common.{
  ℕ, ◌≡◌, ◌≢◌, ◌∙◌, ◌⊎◌, inl, inr, refl, ap, Bool, true, false, ◌&&◌, not, List, [], ◌∷◌, ◌++◌,
  Option, some, ◌==◌, Text, same_text, codes, starts_with,
}
use introduction_to_computer.Proxylab.Request.{crlf}
use introduction_to_computer.Proxylab.Tiny.{
  ParseResult, parse_static, parse_uri, get_filetype, Stat, Connection, Library, static_head,
  read_requesthdrs, answer_static, answer, after_headers, after_line, serve, scan_request,
  is_header,
}
use introduction_to_computer.Proxylab.Request.Line.{Free, scan_word-append}
use introduction_to_computer.Proxylab.Request.{is_space, scan_word, skip_space}
use introduction_to_computer.Proxylab.Tiny.{scan_version, with_uri, with_method}
use introduction_to_computer.Proxylab.Tiny.Responses.{IsWorking, fresh, serve_static-page}

-- The request line for a file.
abbrev pub request_line : (uri : Text) → (version : ℕ) → Text
request_line uri version = codes "GET " ++ (uri ++ (32 ∷ (codes "HTTP/1." ++ (version ∷ crlf))))

-- Headers with a name and a value.
abbrev pub AreHeaders : List Text → Type 0
AreHeaders [] = Unit {0}
AreHeaders (h ∷ hs) = (same_text h crlf ≡ false) × (is_header h ≡ true) × AreHeaders hs

scan_request-line :
    (uri : Text) (version : ℕ)
    → uri ≢ []
    → Free is_space uri
    → scan_request (request_line uri version) ≡ some (codes "GET", uri, version)
unfolding scan_request scan_word skip_space scan_version starts_with
scan_request-line uri version ne f =
    ap with_method (
      scan_word-append (codes "GET") 32 (uri ++ (32 ∷ (codes "HTTP/1." ++ (version ∷ crlf))))
        (λ e. cc e) (refl, (refl, (refl, tt))) refl)
    ∙ ap (with_uri (codes "GET"))
        (scan_word-append uri 32 (codes "HTTP/1." ++ (version ∷ crlf)) ne f refl)

read_requesthdrs-end :
    (l : Library) (hs more : List Text) (c : Connection)
    → AreHeaders hs
    → read_requesthdrs l (hs ++ (crlf ∷ more)) c ≡ (false, c)
unfolding read_requesthdrs same_text
read_requesthdrs-end l [] more c a = refl
read_requesthdrs-end l (h ∷ hs) more c (other, header, a) =
    rw (other, header) (read_requesthdrs-end l hs more c a)

-- If all writes succeed, a well-formed request for a regular, readable file that an int can hold the
-- size of is answered by the headers for the file, with its size and its type, and then its bytes,
-- and by nothing else.
pub serve_lem :
    (l : Library) (uri : Text) (version : ℕ) (hs more : List Text) (f : Text) (s : Stat)
    (bytes : Text)
    → IsWorking l
    → uri ≢ []
    → Free is_space uri
    → (version ≡ b'0') ⊎ (version ≡ b'1')
    → AreHeaders hs
    → parse_uri uri ≡ parse_static f
    → l.stat f ≡ some s
    → (s.regular ≡ true) × (s.readable ≡ true)
    → l.load f s.size ≡ some bytes
    → (serve l (request_line uri version ∷ (hs ++ (crlf ∷ more))) fresh).sent
      ≡ static_head s.size (get_filetype f) ∷ bytes ∷ []
unfolding serve after_line after_headers answer answer_static same_text
serve_lem l uri version hs more f s bytes w ne free digit a parsed found (reg, rd) load =
    ap (λ (r : Option (Text × Text × ℕ)). (after_line l (hs ++ (crlf ∷ more)) r fresh).sent)
      (scan_request-line uri version ne free)
    ∙ rw (known digit) (
        ap (λ (r : Bool × Connection). (after_headers l uri r).sent)
          (read_requesthdrs-end l hs more fresh a))
    ∙ ap (λ (r : ParseResult). (answer l r fresh).sent) parsed
    ∙ ap (λ (o : Option Stat). (answer_static l f o fresh).sent) found
    ∙ rw (reg, rd) (serve_static-page l f s.size bytes w (w.small f s found) load)
  where
    known :
        (version ≡ b'0') ⊎ (version ≡ b'1')
        → (not (version == b'0') && not (version == b'1')) ≡ false
    known (inl e) = rw e refl
    known (inr e) = rw e refl
