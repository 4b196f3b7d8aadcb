-- ===== src/Programminglab/Queue/Split.antt =====
-- The items of the queue of cprogramminglab-handout/queue.c without the last one, and reversed.
use introduction_to_computer.Common.{
  ℕ, ◌+◌, ◌≡◌, ◌≢◌, refl, ap, true, false, ◌++◌, [], ◌∷◌, some, Text, arith, length, Memory,
  Bool-cases, inl, inr, reverse_aux,
}
use introduction_to_computer.Programminglab.Queue.{Element, element}
use introduction_to_computer.Programminglab.Queue.Chain.{
  holds-apart, holds-more, Items, first_or, last_or, holds, Chain, holds-last,
}

pub not_part :
    (a : ℕ) (rs xs : Items)
    → ((p : ℕ) → holds p rs ≡ true → holds p xs ≡ true)
    → holds a xs ≡ false
    → holds a rs ≡ false
not_part a rs xs part new = elim (Bool-cases (holds a rs)) [
  | inl h ↦ absurd (cc (part a h, new))
  | inr h ↦ h
]

-- The last element taken off.
pub Chain-split :
    (m : Memory Element) (a : ℕ) (s : Text) (xs : Items)
    → Chain m 0 ((a, s) ∷ xs)
    → (rs : Items) × (t : Text) × ((a, s) ∷ xs ≡ rs ++ ((last_or a xs, t) ∷ []))
      × (first_or (last_or a xs) rs ≡ a)
      × Chain m (last_or a xs) rs
      × (m (last_or a xs) ≡ some (element t 0))
      × (holds (last_or a xs) rs ≡ false)
      × ((p : ℕ) → holds p rs ≡ true → holds p ((a, s) ∷ xs) ≡ true)
Chain-split m a s [] (e, nz, new, c) = ([], s, refl, refl, tt, e, refl, λ p h. cc h)
Chain-split m a s ((b, r) ∷ xs) (e, nz, new, c) =
    let (rs, t, eq, fst, chain, at, out, part) = Chain-split m b r xs c in
    let last = last_or b xs in
    let ne : last ≢ a = holds-apart last a ((b, r) ∷ xs) (holds-last b r xs) new in
    (
      (a, s) ∷ rs,
      t,
      ap (λ (z : Items). (a, s) ∷ z) eq,
      refl,
      (rw fst e, nz, not_part a rs ((b, r) ∷ xs) part new, chain),
      at,
      holds-more last a s rs ne out,
      λ p h. part_more p a s rs ((b, r) ∷ xs) (part p) h,
    )
  where
    part_more :
        (p a : ℕ) (s : Text) (rs xs : Items)
        → (holds p rs ≡ true → holds p xs ≡ true)
        → holds p ((a, s) ∷ rs) ≡ true
        → holds p ((a, s) ∷ xs) ≡ true
    part_more p a s rs xs part h = ground (arith, part)

pub reverse_aux-last :
    (rs ds : Items) (x : ℕ × Text) → reverse_aux (rs ++ (x ∷ [])) ds ≡ x ∷ reverse_aux rs ds
reverse_aux-last [] ds x = refl
reverse_aux-last (r ∷ rs) ds x = reverse_aux-last rs (r ∷ ds) x

pub last_or-reverse_aux :
    (d a : ℕ) (s : Text) (rs ds : Items) → last_or d (reverse_aux rs ((a, s) ∷ ds)) ≡ last_or a ds
last_or-reverse_aux d a s [] ds = refl
last_or-reverse_aux d a s ((b, t) ∷ rs) ds = last_or-reverse_aux d b t rs ((a, s) ∷ ds)

pub length-reverse_aux : (xs ys : Items) → length (reverse_aux xs ys) ≡ length xs + length ys
length-reverse_aux [] ys = omega arith
length-reverse_aux (x ∷ xs) ys = omega (arith, length-reverse_aux xs (x ∷ ys))
