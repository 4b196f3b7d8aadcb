-- ===== src/Proxylab/Request/Headers.antt =====
-- The request that read_request of proxylab/proxy.c builds, as one text.
use introduction_to_computer.Common.{
  ◌≡◌, ◌∙◌, refl, sym, ap, false, List, [], ◌∷◌, ◌++◌, Option, some, none, ltb, Text, same_text,
  length, codes, arith, length-append, append_assoc, Bool-cases, inl, inr,
}
use introduction_to_computer.Proxylab.Request.{
  maxline, crlf, version_head, strcat, ◌>=>◌, forwarded_header, header_loop, build_get,
}

-- Two additions are one.
strcat-strcat :
    (a b c : Text) (k : Text → Option Text)
    → (strcat a b >=> λ t. strcat t c >=> k) ≡ (strcat a (b ++ c) >=> k)
strcat-strcat a b c k = elim (Bool-cases (ltb (length (a ++ b)) maxline)) [
  | inl fits ↦ rw (fits, append_assoc a b c)
  | inr over ↦
      let more : ltb (length (a ++ (b ++ c))) maxline ≡ false =
        rw⁻¹ (append_assoc a b c) (ground (arith, length-append (a ++ b) c, over)) in
      rw (over, more)
]

-- A text that is put together in another buffer first.
strcat-buffer :
    (r a b : Text) (k : Text → Option Text)
    → (strcat a b >=> λ t. strcat r t >=> k) ≡ (strcat r (a ++ b) >=> k)
strcat-buffer r a b k = elim (Bool-cases (ltb (length (a ++ b)) maxline)) [
  | inl fits ↦ rw fits
  | inr over ↦
      let more : ltb (length (r ++ (a ++ b))) maxline ≡ false =
        ground (arith, length-append r (a ++ b), over) in
      rw (over, more)
]

then_same :
    (o : Option Text) (k k' : Text → Option Text)
    → ((t : Text) → k t ≡ k' t)
    → (o >=> k) ≡ (o >=> k')
then_same none k k' e = refl
then_same (some t) k k' e = e t

then_some : (o : Option Text) → (o >=> some) ≡ o
then_some none = refl
then_some (some t) = refl

abbrev pub forwarded : List Text → Text
forwarded [] = []
forwarded (h ∷ hs) = forwarded_header h ++ forwarded hs

-- No line is the empty one.
abbrev pub NoBlank : List Text → Type 0
NoBlank [] = Unit {0}
NoBlank (h ∷ hs) = (same_text h crlf ≡ false) × NoBlank hs

header_loop-strcat :
    (hs more : List Text) (req : Text)
    → NoBlank hs
    → header_loop (hs ++ (crlf ∷ more)) req ≡ strcat req (forwarded hs ++ crlf)
unfolding header_loop
header_loop-strcat [] more req nb = refl
header_loop-strcat (h ∷ hs) more req (nb, nbs) = rw nb (
    then_same (strcat req (forwarded_header h)) (header_loop (hs ++ (crlf ∷ more)))
      (λ t. strcat t (forwarded hs ++ crlf) >=> some)
      (λ t. header_loop-strcat hs more t nbs ∙ sym (then_some (strcat t (forwarded hs ++ crlf))))
    ∙ strcat-strcat req (forwarded_header h) (forwarded hs ++ crlf) some
    ∙ then_some (strcat req (forwarded_header h ++ (forwarded hs ++ crlf)))
    ∙ ap (strcat req) (sym (append_assoc (forwarded_header h) (forwarded hs) crlf)))

-- The whole request for a host, a path and the headers of the client.
abbrev pub whole_request : (host path : Text) → List Text → Text
whole_request host path hs =
    codes "GET "
    ++ ((((path ++ codes " ") ++ version_head) ++ (codes "Host: " ++ (host ++ crlf)))
        ++ (forwarded hs ++ crlf))

pub build_get-whole :
    (host path : Text) (hs more : List Text)
    → NoBlank hs
    → build_get (some host) (some path) (hs ++ (crlf ∷ more))
      ≡ strcat [] (whole_request host path hs)
unfolding build_get
build_get-whole host path hs more nb =
    let lines = hs ++ (crlf ∷ more) in
    let rest = forwarded hs ++ crlf in
    let host_line = codes "Host: " ++ (host ++ crlf) in
    let start = (path ++ codes " ") ++ version_head in
    let host_then : (req : Text)
        → (strcat (codes "Host: ") host >=> λ tmp.
            strcat tmp crlf >=> λ tmp. strcat req tmp >=> λ r. header_loop lines r)
          ≡ (strcat req host_line >=> λ r. strcat r rest >=> some) =
      λ req.
        strcat-strcat (codes "Host: ") host crlf
          (λ tmp. strcat req tmp >=> λ r. header_loop lines r)
        ∙ strcat-buffer req (codes "Host: ") (host ++ crlf) (header_loop lines)
        ∙ then_same (strcat req host_line) (header_loop lines) (λ r. strcat r rest >=> some)
            (λ r. header_loop-strcat hs more r nb ∙ sym (then_some (strcat r rest))) in
    let g = codes "GET " in
    let after : Text → Option Text = λ r. strcat r rest >=> some in
    strcat-strcat g path (codes " ") (λ tmp. strcat tmp version_head >=> λ req.
    strcat (codes "Host: ") host >=> λ tmp.
    strcat tmp crlf >=> λ tmp. strcat req tmp >=> λ r. header_loop lines r)
    ∙ strcat-strcat g (path ++ codes " ") version_head (λ req.
      strcat (codes "Host: ") host >=> λ tmp.
      strcat tmp crlf >=> λ tmp. strcat req tmp >=> λ r. header_loop lines r)
    ∙ then_same (strcat g start) _ (λ req. strcat req host_line >=> after) host_then
    ∙ strcat-strcat g start host_line after
    ∙ strcat-strcat g (start ++ host_line) rest some
    ∙ then_some (strcat g ((start ++ host_line) ++ rest))
