-- ===== src/Shelllab/Parse/Commands.antt =====
-- What `parseline` of shelllab/tsh_helper.c returns for a command line that is written out from
-- its words.
use mathlib.Core.List.{reverse_aux, reverse_aux-append, reverse-cons, reverse-reverse, append-nil}
use introduction_to_computer.Common.{
  ℕ, zero, suc, ◌+◌, ◌-◌, ◌≤◌, ◌<◌, ◌≡◌, refl, ap, ◌∙◌, List, [], ◌∷◌, ◌++◌, Option, none, some,
  Bool, true, false, arith, length, take, reverse, length-append,
}
use introduction_to_computer.Shelllab.Parse.{
  Text, Tokens, parseline, max_line, classify, classify_args, parseline_fg, parseline_bg, tokens_of,
  builtin_of, starts_ampersand, after_loop, first_of_list, CmdlineTokens, ParselineReturn,
  BuiltinState,
}
use introduction_to_computer.Shelllab.Parse.RoundTrip.{
  Word, bare, Part, argument, input, output, text_of, print_word, print, IsWord, IsLine,
  tokens_after, rounds, parse_print,
}

-- What a command line means, read off its parts.
abbrev pub arguments : List Part → List Text
arguments [] = []
arguments (argument w ∷ ps) = text_of w ∷ arguments ps
arguments (_ ∷ ps) = arguments ps

abbrev pub infile_of : List Part → Option Text
infile_of [] = none
infile_of (input w ∷ ps) = some (text_of w)
infile_of (_ ∷ ps) = infile_of ps

abbrev pub outfile_of : List Part → Option Text
outfile_of [] = none
outfile_of (output w ∷ ps) = some (text_of w)
outfile_of (_ ∷ ps) = outfile_of ps

abbrev pub no_tokens : Tokens
no_tokens = record { argv = []; infile = none; outfile = none }

-- No argument starts with an ampersand.
abbrev pub Plain : List Text → Type 0
Plain [] = Unit {0}
Plain (w ∷ ws) = (starts_ampersand w ≡ false) × Plain ws

argv-tokens_after :
    (t : Tokens) (ps : List Part) → (tokens_after t ps).argv ≡ reverse_aux (arguments ps) t.argv
argv-tokens_after t [] = refl
argv-tokens_after t (argument w ∷ ps) =
    argv-tokens_after (record t { argv = text_of w ∷ t.argv }) ps
argv-tokens_after t (input w ∷ ps) = argv-tokens_after (record t { infile = some (text_of w) }) ps
argv-tokens_after t (output w ∷ ps) = argv-tokens_after (record t { outfile = some (text_of w) }) ps

infile-set :
    (t : Tokens) (ps : List Part) (f : Text)
    → IsLine t ps
    → t.infile ≡ some f
    → (tokens_after t ps).infile ≡ some f
infile-set t [] f h e = e
infile-set t (argument w ∷ ps) f h e =
    infile-set (record t { argv = text_of w ∷ t.argv }) ps f h.2 e
infile-set t (input w ∷ ps) f h e = absurd (cc (e, h.1))
infile-set t (output w ∷ ps) f h e = infile-set (record t { outfile = some (text_of w) }) ps f h.2 e

outfile-set :
    (t : Tokens) (ps : List Part) (f : Text)
    → IsLine t ps
    → t.outfile ≡ some f
    → (tokens_after t ps).outfile ≡ some f
outfile-set t [] f h e = e
outfile-set t (argument w ∷ ps) f h e =
    outfile-set (record t { argv = text_of w ∷ t.argv }) ps f h.2 e
outfile-set t (input w ∷ ps) f h e = outfile-set (record t { infile = some (text_of w) }) ps f h.2 e
outfile-set t (output w ∷ ps) f h e = absurd (cc (e, h.1))

infile-tokens_after :
    (t : Tokens) (ps : List Part)
    → IsLine t ps
    → t.infile ≡ none
    → (tokens_after t ps).infile ≡ infile_of ps
infile-tokens_after t [] h e = e
infile-tokens_after t (argument w ∷ ps) h e =
    infile-tokens_after (record t { argv = text_of w ∷ t.argv }) ps h.2 e
infile-tokens_after t (input w ∷ ps) h e =
    infile-set (record t { infile = some (text_of w) }) ps (text_of w) h.2 refl
infile-tokens_after t (output w ∷ ps) h e =
    infile-tokens_after (record t { outfile = some (text_of w) }) ps h.2 e

outfile-tokens_after :
    (t : Tokens) (ps : List Part)
    → IsLine t ps
    → t.outfile ≡ none
    → (tokens_after t ps).outfile ≡ outfile_of ps
outfile-tokens_after t [] h e = e
outfile-tokens_after t (argument w ∷ ps) h e =
    outfile-tokens_after (record t { argv = text_of w ∷ t.argv }) ps h.2 e
outfile-tokens_after t (input w ∷ ps) h e =
    outfile-tokens_after (record t { infile = some (text_of w) }) ps h.2 e
outfile-tokens_after t (output w ∷ ps) h e =
    outfile-set (record t { outfile = some (text_of w) }) ps (text_of w) h.2 refl

-- A short line is parsed whole, and its fuel is enough.
take-short : {A : Type 0} (n : ℕ) (xs : List A) → length xs ≤ n → take n xs ≡ xs
take-short zero [] h = refl
take-short zero (x ∷ xs) h = absurd (omega arith)
take-short (suc n) [] h = refl
take-short (suc n) (x ∷ xs) h = rw (take-short n xs (omega arith))

rounds-le : (ps : List Part) → rounds ps ≤ length (print ps)
rounds-le [] = omega arith
rounds-le (argument w ∷ ps) =
    omega (arith, rounds-le ps, length-append (print_word w) (32 ∷ print ps))
rounds-le (input w ∷ ps) = omega (arith, rounds-le ps, length-append (print_word w) (32 ∷ print ps))
rounds-le (output w ∷ ps) =
    omega (arith, rounds-le ps, length-append (print_word w) (32 ∷ print ps))

parseline-tokens_after :
    (ps : List Part)
    → IsLine no_tokens ps
    → length (print ps) < max_line
    → parseline (some (print ps)) ≡ classify (tokens_after no_tokens ps)
unfolding parseline after_loop
parseline-tokens_after ps h short = rw (take-short (max_line - 1) (print ps) (omega arith)) (
    ap after_loop (
      parse_print (length (print ps) + 1) ps no_tokens h (omega arith)
        (omega (arith, rounds-le ps))))

-- The ampersand that may end a line.
abbrev pub ampersand : Bool → List Part
ampersand false = []
ampersand true = argument (bare (b'&' ∷ [])) ∷ []

parts-ampersand :
    (ps : List Part) (background : Bool)
    → (arguments (ps ++ ampersand background) ≡ arguments ps ++ arguments (ampersand background))
      × (infile_of (ps ++ ampersand background) ≡ infile_of ps)
      × (outfile_of (ps ++ ampersand background) ≡ outfile_of ps)
parts-ampersand [] false = (refl, refl, refl)
parts-ampersand [] true = (refl, refl, refl)
parts-ampersand (argument w ∷ ps) background =
    let (a, i, o) = parts-ampersand ps background in (rw a, i, o)
parts-ampersand (input w ∷ ps) background =
    let (a, i, o) = parts-ampersand ps background in (a, refl, o)
parts-ampersand (output w ∷ ps) background =
    let (a, i, o) = parts-ampersand ps background in (a, i, refl)

Plain-reverse_aux : (ws vs : List Text) → Plain ws → Plain vs → Plain (reverse_aux ws vs)
Plain-reverse_aux [] vs h k = k
Plain-reverse_aux (w ∷ ws) vs h k = Plain-reverse_aux ws (w ∷ vs) h.1 (h.0, k)

-- The command without its ampersand.
abbrev pub command : List Part → Text → List Text → CmdlineTokens
command ps w ws = record {
  argv = w ∷ ws;
  infile = infile_of ps;
  outfile = outfile_of ps;
  builtin = builtin_of w;
}

abbrev pub in_mode : Bool → CmdlineTokens → ParselineReturn
in_mode false = parseline_fg
in_mode true = parseline_bg

classify-fg :
    (t : Tokens) (back : List Text) (w : Text) (ws : List Text)
    → t.argv ≡ back
    → reverse back ≡ w ∷ ws
    → Plain back
    → classify t
      ≡ parseline_fg
          (record { argv = w ∷ ws; infile = t.infile; outfile = t.outfile; builtin = builtin_of w })
unfolding classify classify_args tokens_of
classify-fg t [] w ws e r plain = absurd (cc r)
classify-fg t (last ∷ before) w ws e r plain = rw (e, plain.0, r)

classify-bg :
    (t : Tokens) (back : List Text) (w : Text) (ws : List Text)
    → t.argv ≡ (b'&' ∷ []) ∷ back
    → reverse back ≡ w ∷ ws
    → classify t
      ≡ parseline_bg
          (record { argv = w ∷ ws; infile = t.infile; outfile = t.outfile; builtin = builtin_of w })
unfolding classify classify_args tokens_of
classify-bg t back w ws e r =
    let first : first_of_list (reverse ((b'&' ∷ []) ∷ back)) ≡ w =
      ap (first_of_list) (reverse-cons (b'&' ∷ []) back ∙ ap (λ l. l ++ (b'&' ∷ []) ∷ []) r) in
    rw (e, r) (rw first)

classify-command :
    (t : Tokens) (w : Text) (ws : List Text) (background : Bool)
    → t.argv ≡ reverse_aux ((w ∷ ws) ++ arguments (ampersand background)) []
    → Plain (w ∷ ws)
    → classify t
      ≡ in_mode background
          (record { argv = w ∷ ws; infile = t.infile; outfile = t.outfile; builtin = builtin_of w })
classify-command t w ws false e plain =
    classify-fg t (reverse (w ∷ ws)) w ws (e ∙ ap reverse (append-nil (w ∷ ws)))
      (reverse-reverse (w ∷ ws)) (Plain-reverse_aux (w ∷ ws) [] plain tt)
classify-command t w ws true e plain =
    classify-bg t (reverse (w ∷ ws)) w ws (e ∙ reverse_aux-append (w ∷ ws) ((b'&' ∷ []) ∷ []) [])
      (reverse-reverse (w ∷ ws))

-- A command line written out from arguments and redirections, each word bare or in quotes and
-- followed by a blank, perhaps with an ampersand at the end. If it is shorter than the buffer,
-- redirects each way at most once, has fewer arguments than `argv` holds and at least one, and no
-- argument starts with an ampersand, then `parseline` returns these arguments and files, the
-- builtin that the first argument names, and whether the job runs in the background.
pub parseline-print :
    (ps : List Part) (background : Bool) (w : Text) (ws : List Text)
    → IsLine no_tokens (ps ++ ampersand background)
    → length (print (ps ++ ampersand background)) < max_line
    → arguments ps ≡ w ∷ ws
    → Plain (w ∷ ws)
    → parseline (some (print (ps ++ ampersand background))) ≡ in_mode background (command ps w ws)
parseline-print ps background w ws h short e plain =
    let line = ps ++ ampersand background in
    let (a, i, o) = parts-ampersand ps background in
    let t = tokens_after no_tokens line in
    let argv : t.argv ≡ reverse_aux ((w ∷ ws) ++ arguments (ampersand background)) [] =
      argv-tokens_after no_tokens line
      ∙ ap reverse (a ∙ ap (λ l. l ++ arguments (ampersand background)) e) in
    let infile : t.infile ≡ infile_of ps = infile-tokens_after no_tokens line h refl ∙ i in
    let outfile : t.outfile ≡ outfile_of ps = outfile-tokens_after no_tokens line h refl ∙ o in
    parseline-tokens_after line h short
    ∙ classify-command t w ws background argv plain
    ∙ ap (in_mode background) (rw (infile, outfile))

-- A command line of one word that starts with an ampersand, shorter than the buffer: `parseline`
-- returns a background job without any argument, and not that the line is empty.
pub lone_ampersand :
    (w : Word)
    → IsWord w
    → length (print (argument w ∷ [])) < max_line
    → starts_ampersand (text_of w) ≡ true
    → (builtin : BuiltinState) × (parseline (some (print (argument w ∷ [])))
        ≡ parseline_bg (record { argv = []; infile = none; outfile = none; builtin = builtin }))
unfolding classify classify_args tokens_of
lone_ampersand w word short amp = (
  builtin_of (text_of w),
  parseline-tokens_after (argument w ∷ []) (word, omega arith, tt) short ∙ rw amp,
)
