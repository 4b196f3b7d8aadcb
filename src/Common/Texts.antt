-- ===== src/Common/Texts.antt =====
-- Texts of C code: lists of bytes without the terminating 0.
use Prim.Native.Nat.{ℕ}
use Prim.Native.Char.{code}
use Prim.Native.String.{String}
use mathlib.Core.Path.{◌≡◌, refl}
use mathlib.Core.Bool.{Bool, true, false}
use mathlib.Core.List.{List, [], ◌∷◌}
use native.Mathlib.Omega.{arith}
use introduction_to_computer.Common.Tests.{◌==◌, if◌then◌else◌}

abbrev pub Text : Type 0
Text = List ℕ

-- The bytes of a text in ASCII.
abbrev pub codes : String → Text
codes String.[] = []
codes (String.◌∷◌ c s) = code c ∷ codes s

-- `strcmp(a, b) == 0`
unfoldable pub same_text : Text → Text → Bool
same_text [] [] = true
same_text [] (b ∷ bs) = false
same_text (a ∷ as') [] = false
same_text (a ∷ as') (b ∷ bs) = let rest = same_text as' bs in if a == b then rest else false

pub same_text_sound : (s t : Text) → same_text s t ≡ true → s ≡ t
unfolding same_text
same_text_sound [] [] h = refl
same_text_sound [] (b ∷ bs) h = cc
same_text_sound (a ∷ as') [] h = cc
same_text_sound (a ∷ as') (b ∷ bs) h = ground (arith, same_text_sound as' bs)

pub same_text_self : (s : Text) → same_text s s ≡ true
unfolding same_text
same_text_self [] = refl
same_text_self (a ∷ as') = ground (arith, same_text_self as')

-- `a` is the beginning of `b`.
unfoldable pub starts_with : Text → Text → Bool
starts_with [] b = true
starts_with (x ∷ a) [] = false
starts_with (x ∷ a) (y ∷ b) = let rest = starts_with a b in if x == y then rest else false

-- `strstr(text, word)` is not null.
unfoldable pub contains : (text word : Text) → Bool
unfolding starts_with
contains [] word = starts_with word []
contains (c ∷ text) word =
    let later = contains text word in if starts_with word (c ∷ text) then true else later

-- The text up to the first byte that is in the class `p`, and what follows from there.
unfoldable pub cut_at : (ℕ → Bool) → Text → Text × Text
cut_at p [] = ([], [])
cut_at p (c ∷ cs) = let (w, rest) = cut_at p cs in if p c then ([], c ∷ cs) else (c ∷ w, rest)
