-- ===== src/Proxylab/Tiny/Uri.antt =====
-- Which files the URIs of proxylab/tiny/tiny.c name: the parts of the file name between slashes.
use introduction_to_computer.Common.{
  ℕ, ◌≡◌, ◌≢◌, ◌∙◌, ◌<◌, inl, inr, refl, sym, ap, subst, Bool, true, false, not, List, [], ◌∷◌,
  ◌++◌, Option, some, none, ltb, ◌==◌, if◌then◌else◌, Text, length, codes, starts_with, contains,
  cut_at, arith, append_assoc, append-nil, Bool-cases, lt→ltb, ==-same, length-append,
}
use introduction_to_computer.Proxylab.Request.{maxline}
use introduction_to_computer.Proxylab.Request.Line.{Free, Free-append, cut_at-all}
use introduction_to_computer.Proxylab.Tiny.{
  parse_error, parse_static, parse_dynamic, parse_uri, format, static_file, dynamic_file,
  cgi_arguments, ends_in_slash,
}

-- The parts of a path, where `w` is what was read of the first one.
unfoldable pub parts : (w t : Text) → List Text
parts w [] = w ∷ []
parts w (c ∷ t) =
    let next = parts [] t in
    let same = parts (w ++ (c ∷ [])) t in if c == b'/' then w ∷ next else same

-- No part but the last one goes up to the parent directory.
unfoldable pub StaysBelow : List Text → Type 0
StaysBelow [] = Unit {0}
StaysBelow (w ∷ []) = Unit {0}
StaysBelow (w ∷ x ∷ ws) = (w ≢ codes "..") × StaysBelow (x ∷ ws)

contains-suffix :
    (a b : Text) → contains (a ++ b) (codes "/../") ≡ false → contains b (codes "/../") ≡ false
unfolding contains
contains-suffix [] b e = e
contains-suffix (c ∷ a) b e =
    contains-suffix a b
      (later (starts_with (codes "/../") (c ∷ (a ++ b))) (contains (a ++ b) (codes "/../")) e)
  where
    later : (s l : Bool) → (if s then true else l) ≡ false → l ≡ false
    later true l e = cc e
    later false l e = e

not_at : (a : Text) → contains a (codes "/../") ≡ false → starts_with (codes "/../") a ≡ false
unfolding contains
not_at [] e = refl
not_at (c ∷ a) e = first (starts_with (codes "/../") (c ∷ a)) (contains a (codes "/../")) e
  where
    first : (s l : Bool) → (if s then true else l) ≡ false → s ≡ false
    first true l e = cc e
    first false l e = refl

StaysBelow-cons : (w : Text) (ws : List Text) → w ≢ codes ".." → StaysBelow ws → StaysBelow (w ∷ ws)
unfolding StaysBelow
StaysBelow-cons w [] ne s = tt
StaysBelow-cons w (x ∷ ws) ne s = (ne, s)

up_contained : (t : Text) → contains (codes "/../" ++ t) (codes "/../") ≢ false
unfolding contains starts_with
up_contained t e = cc e

never : (b : Bool) → (if b then false else false) ≡ false
never true = refl
never false = refl

home_clear : contains (codes "home.html") (codes "/../") ≡ false
unfolding contains starts_with
home_clear = refl

parts-StaysBelow :
    (w t : Text) → contains (b'/' ∷ (w ++ t)) (codes "/../") ≡ false → StaysBelow (parts w t)
unfolding parts StaysBelow
parts-StaysBelow w [] e = tt
parts-StaysBelow w (c ∷ t) e = elim (Bool-cases (c == b'/')) [
  | inl slash ↦
      let is = ==-same c b'/' slash in
      let here : w ≢ codes ".." = λ dots. up_there (
        subst (λ (s : Text). contains (b'/' ∷ (s ++ (b'/' ∷ t))) (codes "/../") ≡ false) dots
          (at_slash is e)) in
      rw slash (
        StaysBelow-cons w (parts [] t) here
          (parts-StaysBelow [] t (contains-suffix (b'/' ∷ w) (b'/' ∷ t) (at_slash is e))))
  | inr other ↦ rw other (
      parts-StaysBelow (w ++ (c ∷ [])) t
        (ap (λ (s : Text). contains (b'/' ∷ s) (codes "/../")) (append_assoc w (c ∷ []) t) ∙ e))
]
  where
    at_slash :
        c ≡ b'/'
        → contains (b'/' ∷ (w ++ (c ∷ t))) (codes "/../") ≡ false
        → contains (b'/' ∷ (w ++ (b'/' ∷ t))) (codes "/../") ≡ false
    at_slash is e = subst (λ (d : ℕ). contains (b'/' ∷ (w ++ (d ∷ t))) (codes "/../") ≡ false) is e

    up_there : contains (codes "/../" ++ t) (codes "/../") ≢ false
    up_there e = up_contained t e

-- A name behind the last slash does not go up.
not_at_home :
    (a : Text)
    → starts_with (codes "/../") a ≡ false
    → starts_with (codes "/../") (a ++ codes "home.html") ≡ false
unfolding starts_with
not_at_home [] e = refl
not_at_home (a ∷ []) e = never (b'/' == a)
not_at_home (a ∷ b ∷ []) e = rw (never (b'.' == b)) (never (b'/' == a))
not_at_home (a ∷ b ∷ c ∷ []) e = rw (never (b'.' == c), never (b'.' == b)) (never (b'/' == a))
not_at_home (a ∷ b ∷ c ∷ d ∷ cs) e = e

contains-home :
    (a : Text)
    → contains a (codes "/../") ≡ false
    → contains (a ++ codes "home.html") (codes "/../") ≡ false
unfolding contains
contains-home [] e = home_clear
contains-home (c ∷ a) e =
    rw (not_at_home (c ∷ a) (not_at (c ∷ a) e)) (contains-home a (contains-suffix (c ∷ []) a e))

StaysBelow-file :
    (u : Text)
    → contains (b'/' ∷ u) (codes "/../") ≡ false
    → StaysBelow (parts [] (codes "./" ++ u))
unfolding parts StaysBelow
StaysBelow-file u e = StaysBelow-cons (codes ".") (parts [] u) (λ e. cc e) (parts-StaysBelow [] u e)

dynamic_apart : (f a : Option Text) (filename : Text) → dynamic_file f a ≢ parse_static filename
dynamic_apart f none filename e = cc e
dynamic_apart none (some a) filename e = cc e
dynamic_apart (some f) (some a) filename e = cc e

static_name :
    (s : Option Text) (filename : Text) → static_file s ≡ parse_static filename → s ≡ some filename
static_name none filename e = cc e
static_name (some s) filename e = cc e

format-some : (size : ℕ) (t f : Text) → format size t ≡ some f → t ≡ f
format-some size t f e = chosen (ltb (length t) size) e
  where
    chosen : (b : Bool) → (if b then some t else none) ≡ some f → t ≡ f
    chosen true e = cc e
    chosen false e = cc e

-- The tests that a static file passes.
static_tests :
    (slash cgi climbs : Bool) (f a s : Option Text) (filename : Text)
    → (if not slash
        then parse_error
        else if cgi
        then dynamic_file f a
        else if climbs
        then parse_error
        else static_file s)
      ≡ parse_static filename
    → (slash ≡ true) × (climbs ≡ false) × (s ≡ some filename)
static_tests false cgi climbs f a s filename e = cc e
static_tests true true climbs f a s filename e = absurd (dynamic_apart f a filename e)
static_tests true false true f a s filename e = cc e
static_tests true false false f a s filename e = (refl, refl, static_name s filename e)

leading_slash : (uri : Text) → starts_with (codes "/") uri ≡ true → (u : Text) × (uri ≡ b'/' ∷ u)
unfolding starts_with
leading_slash [] e = cc e
leading_slash (c ∷ u) e = (u, ap (λ (d : ℕ). d ∷ u) (sym (==-same b'/' c (chosen (b'/' == c) e))))
  where
    chosen : (b : Bool) → (if b then true else false) ≡ true → b ≡ true
    chosen true e = refl
    chosen false e = cc e

home_or_not :
    (u : Text) (dir : Bool)
    → contains (b'/' ∷ u) (codes "/../") ≡ false
    → contains (b'/' ∷ (u ++ (if dir then codes "home.html" else []))) (codes "/../") ≡ false
home_or_not u true e = contains-home (b'/' ∷ u) e
home_or_not u false e = ap (λ (t : Text). contains (b'/' ∷ t) (codes "/../")) (append-nil u) ∙ e

-- A file that a URI names as static content is below the directory of the server: of the parts of
-- its name between slashes, none but the last one is `..`. So it is a file below the directory, or
-- itself a directory.
pub parse_uri-StaysBelow :
    (uri filename : Text) → parse_uri uri ≡ parse_static filename → StaysBelow (parts [] filename)
unfolding parse_uri
parse_uri-StaysBelow uri filename e =
    let (path, rest) = cut_at (λ c. c == b'?') uri in
    let tests =
      static_tests (starts_with (codes "/") uri) (starts_with (codes "/cgi-bin/") uri)
        (contains uri (codes "/../")) (format maxline (codes "." ++ path)) (cgi_arguments rest)
        (format maxline
          (codes "." ++ (uri ++ (if ends_in_slash uri then codes "home.html" else []))))
        filename e in
    let (u, is) = leading_slash uri (tests.0) in
    let dir = ends_in_slash uri in
    let file =
      format-some maxline (codes "." ++ (uri ++ (if dir then codes "home.html" else []))) filename
        (tests.2) in
    let clear = subst (λ (t : Text). contains t (codes "/../") ≡ false) is (tests.1) in
    subst (λ (f : Text). StaysBelow (parts [] f))
      (sym (ap (λ (t : Text). codes "." ++ (t ++ (if dir then codes "home.html" else []))) is)
        ∙ file)
      (StaysBelow-file (u ++ (if dir then codes "home.html" else [])) (home_or_not u dir clear))

all_free : (ℕ → Bool) → Text → Bool
all_free p [] = true
all_free p (c ∷ t) = let rest = all_free p t in if p c then false else rest

Free-all_free : (p : ℕ → Bool) (t : Text) → all_free p t ≡ true → Free p t
unfolding all_free
Free-all_free p [] e = tt
Free-all_free p (c ∷ t) e = both (p c) (all_free p t) (λ h. Free-all_free p t h) e
  where
    both :
        (b rest : Bool)
        → (rest ≡ true → Free p t)
        → (if b then false else rest) ≡ true
        → (b ≡ false) × Free p t
    both true rest more e = cc e
    both false rest more e = (refl, more e)

-- A URI that begins with /cgi-bin/ may go up: for every path without a question mark that fits the
-- buffer, /cgi-bin/../../ and the path name the program outside of the directory of the server.
pub parse_uri-outside :
    (path : Text)
    → Free (λ c. c == b'?') path
    → length path < 8176
    → parse_uri (codes "/cgi-bin/../../" ++ path)
      ≡ parse_dynamic (codes "./cgi-bin/../../" ++ path) []
unfolding parse_uri starts_with all_free
parse_uri-outside path f l =
    let free : Free (λ c. c == b'?') (codes "/cgi-bin/../../" ++ path) =
      Free-append (λ c. c == b'?') (codes "/cgi-bin/../../") path
        (Free-all_free (λ c. c == b'?') (codes "/cgi-bin/../../") refl) f in
    let fits =
      lt→ltb (length (codes "./cgi-bin/../../" ++ path)) maxline
        (omega (arith, length-append (codes "./cgi-bin/../../") path, l)) in
    rw (cut_at-all (λ c. c == b'?') (codes "/cgi-bin/../../" ++ path) free) (
      ap
        (λ (b : Bool).
          dynamic_file (if b then some (codes "./cgi-bin/../../" ++ path) else none) (some []))
        fits)
