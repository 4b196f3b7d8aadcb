-- ===== src/Shelllab/Parse/Termination.antt =====
-- The loop of `parseline` in shelllab/tsh_helper.c ends: each round uses up a byte.
use introduction_to_computer.Common.{
  ℕ, zero, suc, ◌+◌, ◌-◌, ◌≤◌, ◌<◌, ◌≡◌, ◌≢◌, refl, [], ◌∷◌, some, arith, false, ap, length, ◌==◌,
  ◌||◌, leb, Bool-cases, Option-cases, inl, inr,
}
use introduction_to_computer.Shelllab.Parse.{
  Text, ParseState, st_normal, Tokens, finished, failed, no_fuel, Round, continue_with, break_with,
  error, is_delim, is_some, skip_delims, cut_word, cut_quoted, record_token, end_round, round,
  parse_loop, max_args,
}

skip_delims-le : (cs : Text) → length (skip_delims cs) ≤ length cs
unfolding skip_delims
skip_delims-le [] = omega arith
skip_delims-le (c ∷ cs) = ground (arith, skip_delims-le cs)

cut_word-le : (cs : Text) → length (cut_word cs).1 ≤ length cs
unfolding cut_word
cut_word-le [] = omega arith
cut_word-le (c ∷ cs) = ground (arith, cut_word-le cs)

cut_quoted-le :
    (q : ℕ) (cs w rest : Text) → cut_quoted q cs ≡ some (w, rest) → length rest ≤ length cs
unfolding cut_quoted
cut_quoted-le q [] w rest h = cc
cut_quoted-le q (c ∷ cs) w rest h = elim (Option-cases (cut_quoted q cs)) [
  | inl e ↦ ground arith
  | inr ((w', rest'), e) ↦ ground (arith, cut_quoted-le q cs w' rest' e)
]

-- What a round leaves.
abbrev Shorter : ℕ → Round → Type 0
Shorter n (continue_with rest state t) = length rest ≤ n
Shorter n _ = Unit {0}

end_round-Shorter :
    (n : ℕ) (state : ParseState) (t : Tokens) (w rest : Text)
    → length rest ≤ n
    → Shorter n (end_round state t w rest)
unfolding end_round
end_round-Shorter n state t w rest h =
    elim (Bool-cases (leb (max_args - 1) (length (record_token state w t).argv))) [
      | inl full ↦ rw full tt
      | inr room ↦ rw room h
    ]

round-Shorter :
    (c : ℕ) (cs : Text) (state : ParseState) (t : Tokens)
    → is_delim c ≡ false
    → Shorter (length cs) (round c cs state t)
unfolding round cut_word
round-Shorter c cs state t ink = elim (Bool-cases (c == b'<')) [
  | inl e1 ↦ rw e1 (elim (Bool-cases (is_some t.infile)) [
    | inl twice ↦ rw twice tt
    | inr once ↦ rw once (omega arith)
  ])
  | inr n1 ↦ rw n1 (elim (Bool-cases (c == b'>')) [
    | inl e2 ↦ rw e2 (elim (Bool-cases (is_some t.outfile)) [
      | inl twice ↦ rw twice tt
      | inr once ↦ rw once (omega arith)
    ])
    | inr n2 ↦ rw n2 (elim (Bool-cases (c == 39 || c == 34)) [
      | inl quote ↦ rw quote (elim (Option-cases (cut_quoted c cs)) [
        | inl e ↦ rw e tt
        | inr ((w, rest), e) ↦
            rw e (end_round-Shorter (length cs) state t w rest (cut_quoted-le c cs w rest e))
      ])
      | inr word ↦
          rw (word, ink) (end_round-Shorter (length cs) state t _ (cut_word cs).1 (cut_word-le cs))
    ])
  ])
]

skip_delims-ink : (text cs : Text) (c : ℕ) → skip_delims text ≡ c ∷ cs → is_delim c ≡ false
unfolding skip_delims
skip_delims-ink [] cs c h = cc
skip_delims-ink (d ∷ ds) cs c h = elim (Bool-cases (is_delim d)) [
  | inl blank ↦ skip_delims-ink ds cs c (rw blank at h)
  | inr ink ↦ ground arith
]

abbrev Ends : ℕ → Type 0
Ends fuel =
    (text : Text) (state : ParseState) (t : Tokens)
    → length text < fuel
    → parse_loop fuel text state t ≢ no_fuel

after_round-Ends :
    (fuel n : ℕ) (state : ParseState) (t : Tokens) (r : Round)
    → Ends fuel
    → n < fuel
    → Shorter n r
    → elim r [
      | continue_with rest state' t' ↦ parse_loop fuel rest state' t'
      | break_with t' ↦ finished st_normal t'
      | error ↦ failed
    ]
      ≢ no_fuel
after_round-Ends fuel n state t (continue_with rest state' t') ends h short =
    ends rest state' t' (omega arith)
after_round-Ends fuel n state t (break_with t') ends h short = λ e. cc e
after_round-Ends fuel n state t error ends h short = λ e. cc e

one_more_round :
    (fuel : ℕ) (text : Text) (state : ParseState) (t : Tokens) (rest : Text)
    → Ends fuel
    → length text < suc fuel
    → skip_delims text ≡ rest
    → parse_loop (suc fuel) text state t ≢ no_fuel
unfolding parse_loop
one_more_round fuel text state t [] ends h e = rw (e, parse_loop) (λ z. cc z)
one_more_round fuel text state t (c ∷ cs) ends h e =
    let le : length (c ∷ cs) ≤ length text =
      omega (arith, skip_delims-le text, ap (length {A = ℕ}) e) in
    rw (e, parse_loop)
      (after_round-Ends fuel (length cs) state t (round c cs state t) ends (omega arith)
        (round-Shorter c cs state t (skip_delims-ink text cs c e)))

-- With more fuel than bytes the loop reaches its end.
parse_loop-Ends : (fuel : ℕ) → Ends fuel
parse_loop-Ends zero text state t h = absurd (omega arith)
parse_loop-Ends (suc fuel) text state t h =
    one_more_round fuel text state t (skip_delims text) (parse_loop-Ends fuel) h refl

-- The loop of `parseline`, on any text and from any state of its tokens, ends within as many
-- rounds as the text has bytes and one more, which is the fuel that `parseline` gives it.
pub parse_loop_ends :
    (text : Text) (state : ParseState) (t : Tokens)
    → parse_loop (length text + 1) text state t ≢ no_fuel
parse_loop_ends text state t = parse_loop-Ends (length text + 1) text state t (omega arith)
