-- ===== src/Shelllab/Parse.antt =====
-- `parseline` of shelllab/tsh_helper.c. A command line is the list of its bytes without the
-- terminating 0; the pointers into the buffer that cut it into tokens are the tokens themselves.
pub mod Commands
pub mod RoundTrip
pub mod Termination
mod Tests
pub use introduction_to_computer.Common.{Text}
unfoldable pub use introduction_to_computer.Common.{same_text}
use introduction_to_computer.Common.{
  ℕ, zero, suc, ◌+◌, ◌-◌, List, [], ◌∷◌, ◌++◌, Option, none, some, Bool, true, false, ◌||◌, ltb,
  leb, ◌==◌, if◌then◌else◌, length, take, reverse,
}

abbrev pub max_line : ℕ
max_line = 1024

abbrev pub max_args : ℕ
max_args = 128

-- The state of the loop: what the next token is.
pub data ParseState : Type 0 where
  st_normal st_infile st_outfile : ParseState

pub data BuiltinState : Type 0 where
  builtin_none builtin_quit builtin_jobs builtin_bg builtin_fg : BuiltinState

-- What the loop has found; `argv` holds the arguments with the last one first.
pub record Tokens : Type 0 where
  pub argv : List Text
  pub infile : Option Text
  pub outfile : Option Text

pub record CmdlineTokens : Type 0 where
  pub argv : List Text
  pub infile : Option Text
  pub outfile : Option Text
  pub builtin : BuiltinState

pub data ParselineReturn : Type 0 where
  parseline_fg : CmdlineTokens → ParselineReturn
  parseline_bg : CmdlineTokens → ParselineReturn
  parseline_empty : ParselineReturn
  parseline_error : ParselineReturn

-- `delims`
abbrev pub is_delim : ℕ → Bool
is_delim c = c == 32 || (c == 9 || (c == 13 || c == 10))

-- `buf += strspn(buf, delims)`
unfoldable pub skip_delims : Text → Text
skip_delims [] = []
skip_delims (c ∷ cs) = if is_delim c then skip_delims cs else c ∷ cs

-- The text up to the next delimiter, and what follows the byte that is cut out.
unfoldable pub cut_word : Text → Text × Text
cut_word [] = ([], [])
cut_word (c ∷ cs) = let (w, rest) = cut_word cs in if is_delim c then ([], cs) else (c ∷ w, rest)

-- The text up to the closing quote, if there is one, and what follows it.
unfoldable pub cut_quoted : ℕ → Text → Option (Text × Text)
cut_quoted q [] = none
cut_quoted q (c ∷ cs) =
    if c == q
    then some ([], cs)
    else elim (cut_quoted q cs) [ none ↦ none | some (w, rest) ↦ some (c ∷ w, rest) ]

-- The token goes to the arguments or names a file.
unfoldable pub record_token : ParseState → Text → Tokens → Tokens
record_token st_normal w t = record t { argv = w ∷ t.argv }
record_token st_infile w t = record t { infile = some w }
record_token st_outfile w t = record t { outfile = some w }

abbrev pub is_some : Option Text → Bool
is_some none = false
is_some (some w) = true

-- How the loop ends.
pub data Loop : Type 0 where
  finished : ParseState → Tokens → Loop
  failed : Loop
  no_fuel : Loop

-- What one round does with the text behind the white space: go on, or stop the loop.
pub data Round : Type 0 where
  continue_with : Text → ParseState → Tokens → Round
  break_with : Tokens → Round
  error : Round

-- The end of a round: the token is recorded, and a full `argv` ends the loop.
unfoldable pub end_round : ParseState → Tokens → Text → Text → Round
unfolding record_token
end_round state t w rest =
    let t' = record_token state w t in
    if leb (max_args - 1) (length t'.argv) then break_with t' else continue_with rest st_normal t'

unfoldable pub round : ℕ → Text → ParseState → Tokens → Round
unfolding end_round cut_word cut_quoted
round c cs state t =
    if c == b'<'
    then if is_some t.infile then error else continue_with cs st_infile t
    else if c == b'>'
    then if is_some t.outfile then error else continue_with cs st_outfile t
    else if c == 39 || c == 34
    then elim (cut_quoted c cs) [ none ↦ error | some (w, rest) ↦ end_round state t w rest ]
    else let (w, rest) = cut_word (c ∷ cs) in end_round state t w rest

-- `while (buf < endbuf)`, with fuel for the rounds.
unfoldable pub parse_loop : ℕ → Text → ParseState → Tokens → Loop
unfolding round skip_delims
parse_loop zero text state t = no_fuel
parse_loop (suc fuel) text state t = elim (skip_delims text) [
  | [] ↦ finished state t
  | c ∷ cs ↦ elim (round c cs state t) [
    | continue_with rest state' t' ↦ parse_loop fuel rest state' t'
    | break_with t' ↦ finished st_normal t'
    | error ↦ failed
  ]
]

unfoldable pub builtin_of : Text → BuiltinState
unfolding same_text
builtin_of w =
    if same_text w (b'q' ∷ b'u' ∷ b'i' ∷ b't' ∷ [])
    then builtin_quit
    else if same_text w (b'j' ∷ b'o' ∷ b'b' ∷ b's' ∷ [])
    then builtin_jobs
    else if same_text w (b'b' ∷ b'g' ∷ [])
    then builtin_bg
    else if same_text w (b'f' ∷ b'g' ∷ [])
    then builtin_fg
    else builtin_none

abbrev pub starts_ampersand : Text → Bool
starts_ampersand [] = false
starts_ampersand (c ∷ cs) = c == b'&'

abbrev pub first_of_list : List Text → Text
first_of_list [] = []
first_of_list (w ∷ ws) = w

-- The token structure with the given arguments.
unfoldable pub tokens_of : Tokens → List Text → CmdlineTokens
unfolding builtin_of
tokens_of t args = record {
  argv = args;
  infile = t.infile;
  outfile = t.outfile;
  builtin = builtin_of (first_of_list (reverse t.argv));
}

-- The part of `parseline` behind its loop. The last argument is the head of `argv`.
unfoldable pub classify_args : Tokens → List Text → ParselineReturn
unfolding tokens_of
classify_args t [] = parseline_empty
classify_args t (last ∷ before) =
    if starts_ampersand last
    then parseline_bg (tokens_of t (reverse before))
    else parseline_fg (tokens_of t (reverse (last ∷ before)))

unfoldable pub classify : Tokens → ParselineReturn
unfolding classify_args
classify t = classify_args t t.argv

unfoldable pub after_loop : Loop → ParselineReturn
unfolding classify
after_loop (finished st_normal t) = classify t
after_loop (finished _ t) = parseline_error
after_loop _ = parseline_error

-- The first 1023 bytes are parsed; the fuel is their number, and one round more.
unfoldable pub parseline : Option Text → ParselineReturn
unfolding parse_loop after_loop
parseline none = parseline_empty
parseline (some cmdline) =
    let buf = take (max_line - 1) cmdline in
    after_loop (
      parse_loop (length buf + 1) buf st_normal
        (record { argv = []; infile = none; outfile = none }))
