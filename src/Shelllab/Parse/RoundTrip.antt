-- ===== src/Shelllab/Parse/RoundTrip.antt =====
-- What `parseline` of shelllab/tsh_helper.c makes of a command line that is written out from its
-- words: the same words.
use mathlib.Core.List.{append_assoc}
use introduction_to_computer.Common.{
  ℕ, zero, suc, ◌+◌, ◌-◌, ◌<◌, ◌≡◌, refl, ap, ◌∙◌, List, [], ◌∷◌, ◌++◌, none, some, Bool, true,
  false, ◌||◌, arith, length, ◌==◌, leb,
}
use introduction_to_computer.Shelllab.Parse.{
  Text, ParseState, st_normal, st_infile, st_outfile, Tokens, finished, continue_with, is_delim,
  skip_delims, cut_word, cut_quoted, record_token, end_round, round, parse_loop, max_args,
}

-- A word as it may be written: bare, or between quotes.
pub data Word : Type 0 where
  bare : Text → Word
  quoted : ℕ → Text → Word

abbrev NoDelim : Text → Type 0
NoDelim [] = Unit {0}
NoDelim (c ∷ cs) = (is_delim c ≡ false) × NoDelim cs

abbrev Lacks : ℕ → Text → Type 0
Lacks q [] = Unit {0}
Lacks q (c ∷ cs) = ((c == q) ≡ false) × Lacks q cs

abbrev pub is_special : ℕ → Bool
is_special c = c == b'<' || (c == b'>' || (c == 39 || c == 34))

abbrev pub IsWord : Word → Type 0
IsWord (bare []) = ⊥
IsWord (bare (c ∷ cs)) = (is_special c ≡ false) × NoDelim (c ∷ cs)
IsWord (quoted q w) = ((q == 39 || q == 34) ≡ true) × Lacks q w

abbrev pub text_of : Word → Text
text_of (bare w) = w
text_of (quoted q w) = w

abbrev pub print_word : Word → Text
print_word (bare w) = w
print_word (quoted q w) = q ∷ w ++ q ∷ []

-- The parts of a command line, each followed by a blank.
pub data Part : Type 0 where
  argument input output : Word → Part

abbrev pub print : List Part → Text
print [] = []
print (argument w ∷ ps) = print_word w ++ 32 ∷ print ps
print (input w ∷ ps) = b'<' ∷ 32 ∷ print_word w ++ 32 ∷ print ps
print (output w ∷ ps) = b'>' ∷ 32 ∷ print_word w ++ 32 ∷ print ps

cut_word-NoDelim : (w rest : Text) → NoDelim w → cut_word (w ++ 32 ∷ rest) ≡ (w, rest)
unfolding cut_word
cut_word-NoDelim [] rest h = refl
cut_word-NoDelim (c ∷ cs) rest h = rw (cut_word-NoDelim cs rest h.1, h.0)

cut_quoted-Lacks :
    (q : ℕ) (w rest : Text) → Lacks q w → cut_quoted q (w ++ q ∷ rest) ≡ some (w, rest)
unfolding cut_quoted
cut_quoted-Lacks q [] rest h = ground arith
cut_quoted-Lacks q (c ∷ cs) rest h = rw (h.0, cut_quoted-Lacks q cs rest h.1)

-- One round on a word that is followed by a blank.
round-bare :
    (c : ℕ) (cs rest : Text) (state : ParseState) (t : Tokens)
    → IsWord (bare (c ∷ cs))
    → round c (cs ++ 32 ∷ rest) state t ≡ end_round state t (c ∷ cs) rest
unfolding round
round-bare c cs rest state t (plain, ink) =
    let n1 : (c == b'<') ≡ false = ground arith in
    let n2 : (c == b'>') ≡ false = ground arith in
    let n3 : (c == 39 || c == 34) ≡ false = ground arith in
    rw (n1, n2, n3, cut_word-NoDelim (c ∷ cs) rest ink)

round-quoted :
    (q : ℕ) (w rest : Text) (state : ParseState) (t : Tokens)
    → IsWord (quoted q w)
    → round q (w ++ q ∷ rest) state t ≡ end_round state t w rest
unfolding round
round-quoted q w rest state t (quote, lacks) =
    let n1 : (q == b'<') ≡ false = ground arith in
    let n2 : (q == b'>') ≡ false = ground arith in
    rw (n1, n2, quote, cut_quoted-Lacks q w rest lacks)

-- The tokens after some parts, and that the parts are in order: no second file of a kind, and
-- fewer arguments than `argv` holds.
abbrev pub tokens_after : Tokens → List Part → Tokens
tokens_after t [] = t
tokens_after t (argument w ∷ ps) = tokens_after (record t { argv = text_of w ∷ t.argv }) ps
tokens_after t (input w ∷ ps) = tokens_after (record t { infile = some (text_of w) }) ps
tokens_after t (output w ∷ ps) = tokens_after (record t { outfile = some (text_of w) }) ps

abbrev pub IsLine : Tokens → List Part → Type 0
IsLine t [] = Unit {0}
IsLine t (argument w ∷ ps) =
    IsWord w × (length t.argv + 2 < max_args) × IsLine (record t { argv = text_of w ∷ t.argv }) ps
IsLine t (input w ∷ ps) =
    IsWord w × (t.infile ≡ none) × IsLine (record t { infile = some (text_of w) }) ps
IsLine t (output w ∷ ps) =
    IsWord w × (t.outfile ≡ none) × IsLine (record t { outfile = some (text_of w) }) ps

-- A blank in front of the rest is skipped.
parse_blank :
    (fuel : ℕ) (rest : Text) (state : ParseState) (t : Tokens)
    → parse_loop fuel (32 ∷ rest) state t ≡ parse_loop fuel rest state t
unfolding parse_loop skip_delims
parse_blank zero rest state t = refl
parse_blank (suc fuel) rest state t = refl

end_round-room :
    (state : ParseState) (t : Tokens) (w rest : Text)
    → length (record_token state w t).argv + 1 < max_args
    → end_round state t w rest ≡ continue_with rest st_normal (record_token state w t)
unfolding end_round
end_round-room state t w rest h =
    let room : leb (max_args - 1) (length (record_token state w t).argv) ≡ false = ground arith in
    rw room

quote-ink : (q : ℕ) → (q == 39 || q == 34) ≡ true → is_delim q ≡ false
quote-ink q h = ground arith

-- One round of the loop.
parse_step :
    (fuel : ℕ) (text : Text) (state : ParseState) (t : Tokens) (c : ℕ) (cs rest : Text)
    (state' : ParseState) (t' : Tokens)
    → skip_delims text ≡ c ∷ cs
    → round c cs state t ≡ continue_with rest state' t'
    → parse_loop (suc fuel) text state t ≡ parse_loop fuel rest state' t'
unfolding parse_loop
parse_step fuel text state t c cs rest state' t' e r = rw (e, parse_loop) (rw r)

skip_delims-ink : (c : ℕ) (cs : Text) → is_delim c ≡ false → skip_delims (c ∷ cs) ≡ c ∷ cs
unfolding skip_delims
skip_delims-ink c cs h = rw h

-- One round of the loop on a word, in any state of it, with the rest of the loop behind it.
parse_word :
    (fuel : ℕ) (w : Word) (rest : Text) (state : ParseState) (t : Tokens)
    → IsWord w
    → length (record_token state (text_of w) t).argv + 1 < max_args
    → parse_loop (suc fuel) (print_word w ++ 32 ∷ rest) state t
      ≡ parse_loop fuel rest st_normal (record_token state (text_of w) t)
parse_word fuel (bare []) rest state t h room = absurd h
parse_word fuel (bare (c ∷ cs)) rest state t h room =
    parse_step fuel (c ∷ cs ++ 32 ∷ rest) state t c (cs ++ 32 ∷ rest) rest st_normal
      (record_token state (c ∷ cs) t) (skip_delims-ink c (cs ++ 32 ∷ rest) (h.1.0))
      (round-bare c cs rest state t h ∙ end_round-room state t (c ∷ cs) rest room)
parse_word fuel (quoted q w) rest state t h room =
    let ink : is_delim q ≡ false = quote-ink q (h.0) in
    let flat : (w ++ q ∷ []) ++ 32 ∷ rest ≡ w ++ q ∷ 32 ∷ rest =
      append_assoc w (q ∷ []) (32 ∷ rest) in
    parse_step fuel (q ∷ (w ++ q ∷ []) ++ 32 ∷ rest) state t q (w ++ q ∷ 32 ∷ rest) (32 ∷ rest)
      st_normal (record_token state w t)
      (skip_delims-ink q ((w ++ q ∷ []) ++ 32 ∷ rest) ink ∙ ap (λ r. q ∷ r) flat)
      (round-quoted q w (32 ∷ rest) state t h ∙ end_round-room state t w (32 ∷ rest) room)
    ∙ parse_blank fuel rest st_normal (record_token state w t)

-- A sign of a redirection and the blank behind it.
parse_sign :
    (fuel : ℕ) (c : ℕ) (rest : Text) (state' : ParseState) (t : Tokens)
    → is_delim c ≡ false
    → round c (32 ∷ rest) st_normal t ≡ continue_with (32 ∷ rest) state' t
    → parse_loop (suc fuel) (c ∷ 32 ∷ rest) st_normal t ≡ parse_loop fuel rest state' t
parse_sign fuel c rest state' t ink r =
    parse_step fuel (c ∷ 32 ∷ rest) st_normal t c (32 ∷ rest) (32 ∷ rest) state' t
      (skip_delims-ink c (32 ∷ rest) ink) r
    ∙ parse_blank fuel rest state' t

round-input :
    (rest : Text) (t : Tokens)
    → t.infile ≡ none
    → round b'<' rest st_normal t ≡ continue_with rest st_infile t
unfolding round
round-input rest t h = rw h

round-output :
    (rest : Text) (t : Tokens)
    → t.outfile ≡ none
    → round b'>' rest st_normal t ≡ continue_with rest st_outfile t
unfolding round
round-output rest t h = rw h

-- The rounds that the parts take: one for a word, and one for a redirection in front of it.
abbrev pub rounds : List Part → ℕ
rounds [] = 0
rounds (argument w ∷ ps) = rounds ps + 1
rounds (input w ∷ ps) = rounds ps + 2
rounds (output w ∷ ps) = rounds ps + 2

pub parse_print :
    (fuel : ℕ) (ps : List Part) (t : Tokens)
    → IsLine t ps
    → length t.argv + 1 < max_args
    → rounds ps < fuel
    → parse_loop fuel (print ps) st_normal t ≡ finished st_normal (tokens_after t ps)
unfolding parse_loop skip_delims record_token
parse_print zero ps t h room lt = absurd (omega arith)
parse_print (suc fuel) [] t h room lt = refl
parse_print (suc fuel) (argument w ∷ ps) t h room lt =
    parse_word fuel w (print ps) st_normal t h.0 (omega (arith, h.1))
    ∙ parse_print fuel ps (record t { argv = text_of w ∷ t.argv }) h.2 (omega (arith, h.1))
        (omega arith)
parse_print (suc zero) (input w ∷ ps) t h room lt = absurd (omega arith)
parse_print (suc (suc fuel)) (input w ∷ ps) t h room lt =
    parse_sign (suc fuel) b'<' (print_word w ++ 32 ∷ print ps) st_infile t refl
      (round-input (32 ∷ print_word w ++ 32 ∷ print ps) t h.1)
    ∙ parse_word fuel w (print ps) st_infile t h.0 room
    ∙ parse_print fuel ps (record t { infile = some (text_of w) }) h.2 room (omega arith)
parse_print (suc zero) (output w ∷ ps) t h room lt = absurd (omega arith)
parse_print (suc (suc fuel)) (output w ∷ ps) t h room lt =
    parse_sign (suc fuel) b'>' (print_word w ++ 32 ∷ print ps) st_outfile t refl
      (round-output (32 ∷ print_word w ++ 32 ∷ print ps) t h.1)
    ∙ parse_word fuel w (print ps) st_outfile t h.0 room
    ∙ parse_print fuel ps (record t { outfile = some (text_of w) }) h.2 room (omega arith)
