-- ===== src/Proxylab/Tiny/Responses.antt =====
-- What the web server of proxylab/tiny/tiny.c sends when all writes succeed.
use introduction_to_computer.Common.{
  ℕ, zero, suc, ◌≡◌, ◌≢◌, ◌∙◌, ◌<◌, ◌≤◌, ◌+◌, ◌/◌, ◌%◌, ◌^◌, inl, inr, refl, sym, ap, subst, Bool,
  true, false, List, [], ◌∷◌, ◌++◌, Option, some, none, ltb, if◌then◌else◌, Text, length, codes,
  contains, arith, Bool-cases, lt→ltb, length-append,
}
use introduction_to_computer.Proxylab.Request.{maxline}
use introduction_to_computer.Proxylab.Tiny.{
  get_filetype, digits_of, decimal, int_text, as_size, maxbuf, format, Stat, Connection, Library,
  static_head, dynamic_head, error_body, error_head, append, write, write_next, clienterror,
  send_error, error_page, send_bytes, send_static, send_file, serve_static,
}

-- The header that states the length of the body.
abbrev pub content_length : Text → Text
content_length body = codes "Content-Length: " ++ (decimal (length body) ++ codes "\r\n")

-- The responses: nothing, headers that state the length of the body that follows them, headers that
-- state that there is no body, or the beginning of the headers and the output of a program.
pub data IsResponse : List Text → Type 0 where
  silent : IsResponse []
  page :
      (body before after : Text)
      → IsResponse ((before ++ (content_length body ++ after)) ∷ body ∷ [])
  only_head : (before after : Text) → IsResponse ((before ++ (content_length [] ++ after)) ∷ [])
  output : (texts : List Text) → IsResponse (dynamic_head ∷ texts)

-- All writes succeed, and a readable file, of a size that an `int` can hold, is given in full, except
-- that `mmap` fails for an empty one.
pub record IsWorking (l : Library) : Type 0 where
  pub accepted : (n : ℕ) → l.accepts n ≡ true
  pub small : (f : Text) (s : Stat) → l.stat f ≡ some s → s.size < 2 ^ 31
  pub empty : (f : Text) → l.load f 0 ≡ none
  pub loaded :
      (f : Text) (s : Stat)
      → l.stat f ≡ some s
      → s.regular ≡ true
      → s.readable ≡ true
      → s.size ≢ 0
      → (bytes : Text) × (l.load f s.size ≡ some bytes) × (length bytes ≡ s.size)

abbrev pub fresh : Connection
fresh = record { sent = []; writes = 0 }

pub write_working :
    (l : Library) (text : Text) (c : Connection)
    → IsWorking l
    → write l text c ≡ (true, append c text)
unfolding write
write_working l text c w = rw (w.accepted c.writes) refl

digits_of-length :
    (fuel n : ℕ) (rest : Text) → length (digits_of fuel n rest) ≤ fuel + 1 + length rest
unfolding digits_of
digits_of-length zero n rest = omega arith
digits_of-length (suc fuel) n rest = elim (Bool-cases (ltb n 10)) [
  | inl less ↦ rw less (omega arith)
  | inr more ↦ rw more (omega (arith, digits_of-length fuel (n / 10) ((48 + n % 10) ∷ rest)))
]

get_filetype-length : (f : Text) → length (get_filetype f) ≤ 10
unfolding get_filetype
get_filetype-length f =
    among (contains f (codes ".html")) (contains f (codes ".gif")) (contains f (codes ".png"))
      (contains f (codes ".jpg"))
  where
    among :
        (a b c d : Bool)
        → length (
            if a
            then codes "text/html"
            else if b
            then codes "image/gif"
            else if c
            then codes "image/png"
            else if d
            then codes "image/jpeg"
            else codes "text/plain")
          ≤ 10
    among true b c d = omega arith
    among false true c d = omega arith
    among false false true d = omega arith
    among false false false true = omega arith
    among false false false false = omega arith

pub int_text-small : (n : ℕ) → n < 2 ^ 31 → int_text n ≡ decimal n
unfolding int_text
int_text-small n l = let e : n % 2 ^ 32 ≡ n = omega (arith, l) in rw (e, lt→ltb n (2 ^ 31) l) refl

as_size-small : (n : ℕ) → n < 2 ^ 31 → as_size n ≡ n
unfolding as_size
as_size-small n l = let e : n % 2 ^ 32 ≡ n = omega (arith, l) in rw (e, lt→ltb n (2 ^ 31) l) refl

format-fits : (size : ℕ) (t : Text) → length t < size → format size t ≡ some t
format-fits size t l = rw (lt→ltb (length t) size l) refl

static_head-fits :
    (n : ℕ) (f : Text) → n < 2 ^ 31 → length (static_head n (get_filetype f)) < maxbuf
static_head-fits n f l =
    let kind = get_filetype f in
    let number : length (int_text n) ≤ 20 =
      subst (λ (t : Text). length t ≤ 20) (sym (int_text-small n l)) (digits_of-length 19 n []) in
    let tail = length-append kind (codes "\r\n\r\n") in
    let rest =
      length-append (int_text n) (codes "\r\nContent-Type: " ++ (kind ++ codes "\r\n\r\n")) in
    omega (arith, number, tail, rest, get_filetype-length f)

pub serve_static-page :
    (l : Library) (f : Text) (n : ℕ) (bytes : Text)
    → IsWorking l
    → n < 2 ^ 31
    → l.load f n ≡ some bytes
    → (serve_static l f n fresh).sent ≡ static_head n (get_filetype f) ∷ bytes ∷ []
unfolding serve_static send_static send_file send_bytes
serve_static-page l f n bytes w s e =
    let head = static_head n (get_filetype f) in
    let first = append fresh head in
    ap (λ (h : Option Text). (send_static l f n h fresh).sent)
      (format-fits maxbuf head (static_head-fits n f s))
    ∙ ap (λ (r : Bool × Connection). (send_file l f n r).sent) (write_working l head fresh w)
    ∙ ap (λ (m : ℕ). (send_bytes l (l.load f m) first).sent) (as_size-small n s)
    ∙ ap (λ (b : Option Text). (send_bytes l b first).sent) e
    ∙ ap (λ (r : Bool × Connection). (r.1).sent) (write_working l bytes first w)

-- An error page whose texts fit the buffers.
pub clienterror-page :
    (l : Library) (errnum shortmsg longmsg : Text)
    → IsWorking l
    → length (error_body errnum shortmsg longmsg) < maxbuf
    → length (error_head errnum shortmsg (length (error_body errnum shortmsg longmsg))) < maxline
    → (clienterror l errnum shortmsg longmsg fresh).sent
      ≡ error_head errnum shortmsg (length (error_body errnum shortmsg longmsg))
        ∷ error_body errnum shortmsg longmsg
        ∷ []
unfolding clienterror error_page send_error write_next
clienterror-page l errnum shortmsg longmsg w bl hl =
    let body = error_body errnum shortmsg longmsg in
    let head = error_head errnum shortmsg (length body) in
    ap (λ (b : Option Text). (error_page l errnum shortmsg b fresh).sent)
      (format-fits maxbuf body bl)
    ∙ ap (λ (h : Option Text). (send_error l body h fresh).sent) (format-fits maxline head hl)
    ∙ ap (λ (r : Bool × Connection). (write_next l body r).sent) (write_working l head fresh w)
    ∙ ap (λ (r : Bool × Connection). (r.1).sent) (write_working l body (append fresh head) w)

pub IsResponse-page :
    (sent : List Text) (head body before after : Text)
    → sent ≡ head ∷ body ∷ []
    → head ≡ before ++ (content_length body ++ after)
    → IsResponse sent
IsResponse-page sent head body before after es eh =
    subst IsResponse (sym (es ∙ ap (λ (h : Text). h ∷ body ∷ []) eh)) (page body before after)

body_tail : Text
body_tail = codes "</p>\r\n<hr /><em>The Tiny Web server</em>\r\n</body></html>\r\n"

pub error-fits :
    (errnum shortmsg longmsg : Text)
    → (length errnum ≤ 3) × (length shortmsg ≤ 20) × (length longmsg ≤ 60)
    → (length (error_body errnum shortmsg longmsg) < maxbuf)
      × (length (error_head errnum shortmsg (length (error_body errnum shortmsg longmsg)))
          < maxline)
unfolding body_tail
error-fits errnum shortmsg longmsg (le, ls, ll) =
    let b1 = length-append longmsg body_tail in
    let b2 = length-append shortmsg (codes "</h1>\r\n<p>" ++ (longmsg ++ body_tail)) in
    let b3 =
      length-append errnum
        (codes ": " ++ (shortmsg ++ (codes "</h1>\r\n<p>" ++ (longmsg ++ body_tail)))) in
    let number = decimal (length (error_body errnum shortmsg longmsg)) in
    let digits : length number ≤ 20 =
      digits_of-length 19 (length (error_body errnum shortmsg longmsg)) [] in
    let h1 = length-append number (codes "\r\n\r\n") in
    let rest =
      codes "\r\nContent-Type: text/html\r\nContent-Length: " ++ (number ++ codes "\r\n\r\n") in
    let h2 = length-append shortmsg rest in
    let h3 = length-append errnum (codes " " ++ (shortmsg ++ rest)) in
    (omega (arith, b1, b2, b3, le, ls, ll), omega (arith, digits, h1, h2, h3, le, ls))

-- An empty file.
pub serve_static-empty :
    (l : Library) (f : Text)
    → IsWorking l
    → (serve_static l f 0 fresh).sent ≡ static_head 0 (get_filetype f) ∷ []
unfolding serve_static send_static send_file send_bytes
serve_static-empty l f w =
    let head = static_head 0 (get_filetype f) in
    let first = append fresh head in
    ap (λ (h : Option Text). (send_static l f 0 h fresh).sent)
      (format-fits maxbuf head (static_head-fits 0 f (omega arith)))
    ∙ ap (λ (r : Bool × Connection). (send_file l f 0 r).sent) (write_working l head fresh w)
    ∙ ap (λ (m : ℕ). (send_bytes l (l.load f m) first).sent) (as_size-small 0 (omega arith))
    ∙ ap (λ (b : Option Text). (send_bytes l b first).sent) (w.empty f)
