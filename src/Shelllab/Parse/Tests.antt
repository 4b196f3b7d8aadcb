-- ===== src/Shelllab/Parse/Tests.antt =====
-- Runs of the model of `parseline` in shelllab/tsh_helper.c, and its theorems at concrete inputs.
use introduction_to_computer.Common.{
  ◌+◌, ◌≡◌, ◌≢◌, refl, true, List, [], ◌∷◌, ◌++◌, none, some, arith, length,
}
use introduction_to_computer.Shelllab.Parse.{
  Text, BuiltinState, builtin_fg, builtin_none, st_normal, no_fuel, parse_loop, parseline,
  parseline_error, parseline_bg, parseline_fg, parseline_empty, builtin_of, same_text, skip_delims,
  round, cut_word, cut_quoted, end_round, record_token, after_loop, classify, classify_args,
  tokens_of,
}
use introduction_to_computer.Shelllab.Parse.RoundTrip.{argument, input, bare, quoted, print, Part}
use introduction_to_computer.Shelllab.Parse.Commands.{
  no_tokens, ampersand, parseline-print, lone_ampersand,
}
use introduction_to_computer.Shelllab.Parse.Termination.{parse_loop_ends}

abbrev fg_1 : Text
fg_1 = b'f' ∷ b'g' ∷ []

-- `fg '%1' < f &`
abbrev parts : List Part
parts =
    argument (bare fg_1) ∷ argument (quoted 39 (b'%' ∷ b'1' ∷ [])) ∷ input (bare (b'f' ∷ [])) ∷ []

parseline-print_example :
    parseline (some (print (parts ++ ampersand true)))
    ≡ parseline_bg (record {
      argv = fg_1 ∷ (b'%' ∷ b'1' ∷ []) ∷ [];
      infile = some (b'f' ∷ []);
      outfile = none;
      builtin = builtin_fg;
    })
unfolding builtin_of same_text
parseline-print_example =
    parseline-print parts true fg_1 ((b'%' ∷ b'1' ∷ []) ∷ [])
      (
        (refl, (refl, (refl, tt))),
        omega arith,
        (
          (refl, (refl, (refl, tt))),
          omega arith,
          ((refl, (refl, tt)), refl, ((refl, (refl, tt)), omega arith, tt)),
        ),
      )
      (omega arith) refl (refl, (refl, tt))

lone_ampersand_example :
    (builtin : BuiltinState) × (parseline (some (b'&' ∷ 32 ∷ []))
      ≡ parseline_bg (record { argv = []; infile = none; outfile = none; builtin = builtin }))
lone_ampersand_example = lone_ampersand (bare (b'&' ∷ [])) (refl, (refl, tt)) (omega arith) refl

parse_loop_ends_example : parse_loop (length fg_1 + 1) fg_1 st_normal no_tokens ≢ no_fuel
parse_loop_ends_example = parse_loop_ends fg_1 st_normal no_tokens

-- A quote that is not closed, a file that is not named, and white space.
open_quote : parseline (some (39 ∷ b'a' ∷ [])) ≡ parseline_error
unfolding parseline parse_loop round skip_delims cut_quoted after_loop
open_quote = refl

no_file :
    parseline (some (b'a' ∷ b'>' ∷ []))
    ≡ parseline_fg (record {
      argv = (b'a' ∷ b'>' ∷ []) ∷ [];
      infile = none;
      outfile = none;
      builtin = builtin_none;
    })
unfolding parseline parse_loop round skip_delims cut_word end_round record_token after_loop classify
    classify_args tokens_of builtin_of same_text
no_file = refl

no_file_apart : parseline (some (b'a' ∷ 32 ∷ b'>' ∷ [])) ≡ parseline_error
unfolding parseline parse_loop round skip_delims cut_word end_round record_token after_loop
no_file_apart = refl

blanks : parseline (some (32 ∷ 9 ∷ [])) ≡ parseline_empty
unfolding parseline parse_loop skip_delims after_loop classify classify_args
blanks = refl
