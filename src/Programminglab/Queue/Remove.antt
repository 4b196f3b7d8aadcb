-- ===== src/Programminglab/Queue/Remove.antt =====
-- q_remove_head and q_free of cprogramminglab-handout/queue.c.
use introduction_to_computer.Common.{
  ℕ, zero, suc, ◌-◌, ◌<◌, ◌≤◌, ◌≡◌, ◌≢◌, refl, sym, Bool, true, false, [], ◌∷◌, some, none, ◌==◌,
  if◌then◌else◌, Text, arith, length, ==-apart, Memory, update, ◌∙◌, ended, load-ended,
  release-ended,
}
use introduction_to_computer.Programminglab.Queue.{
  Element, element, Queue, q_remove_head, copied_string, q_free, free_until,
}
use introduction_to_computer.Programminglab.Queue.Chain.{
  holds-apart, Items, first_or, last_or, holds, Chain, IsQueue, Chain-update, holds-last,
}

-- `q_remove_head` on a queue that stands for at least one string: it copies the characters of the
-- first string that fit, frees its element and leaves a queue that stands for the others.
pub q_remove_head_lem :
    (m : Memory Element) (q : Queue) (a : ℕ) (s : Text) (xs : Items) (sp : Bool) (bufsize : ℕ)
    → IsQueue m q ((a, s) ∷ xs)
    → (q' : Queue) × (m' : Memory Element) × (q_remove_head (some q) sp bufsize m
        ≡ ended (some q', true, (if sp then some (copied_string bufsize s) else none)) m')
      × IsQueue m' q' xs
      × (m' a ≡ none)
      × ((p : ℕ) → p ≢ a → m' p ≡ m p)
unfolding q_remove_head
q_remove_head_lem m q a s xs sp bufsize st =
    let (e, nz, new, c) = st.chain in
    let z : (a == 0) ≡ false = ground arith in
    let n = element s (first_or 0 xs) in
    let tail : q.tail ≡ last_or a xs = st.tail (λ h. nz (sym st.head ∙ h)) in
    let m' : Memory Element = update m a none in
    let q' : Queue = record q { head = first_or 0 xs; size = q.size - 1 } in
    (
      q',
      m',
      rw (st.head, z, load-ended m a n e nz, release-ended m a n e nz),
      record {
        chain = Chain-update m 0 xs a none c new;
        head = refl;
        tail = λ h. tail ∙ last_of a xs h;
        size = omega (arith, st.size);
      },
      ground arith,
      λ p ne. ground arith,
    )
  where
    last_of : (a : ℕ) (xs : Items) → first_or 0 xs ≢ 0 → last_or a xs ≡ last_or 0 xs
    last_of a [] h = absurd (h refl)
    last_of a ((b, t) ∷ xs) h = refl

freed_in :
    (m : Memory Element) (p a : ℕ) (s : Text) (xs : Items)
    → (if holds p xs then none else update m a none p)
      ≡ (if holds p ((a, s) ∷ xs) then none else m p)
freed_in m p a s xs = ground arith

free_until-freed :
    (fuel : ℕ) (m : Memory Element) (a : ℕ) (s : Text) (xs : Items)
    → Chain m 0 ((a, s) ∷ xs)
    → length xs < fuel
    → (m' : Memory Element) × (free_until fuel a (last_or a xs) m ≡ ended tt m')
      × ((p : ℕ) → m' p ≡ (if holds p ((a, s) ∷ xs) then none else m p))
unfolding free_until
free_until-freed zero m a s xs c lt = absurd (omega arith)
free_until-freed (suc fuel) m a s [] (e, nz, new, c) lt =
    let self : (a == a) ≡ true = ground arith in
    (update m a none, rw (self, release-ended m a (element s 0) e nz), λ p. ground arith)
free_until-freed (suc fuel) m a s ((b, t) ∷ xs) (e, nz, new, c) lt =
    let last_in = holds-last b t xs in
    let apart =
      ==-apart a (last_or b xs)
        (λ h. holds-apart (last_or b xs) a ((b, t) ∷ xs) last_in new (sym h)) in
    let n = element s b in
    let m1 : Memory Element = update m a none in
    let (m', run, freed) =
      free_until-freed fuel m1 b t xs (Chain-update m 0 ((b, t) ∷ xs) a none c new) (omega arith) in
    (
      m',
      rw (apart, load-ended m a n e nz, release-ended m a n e nz) run,
      λ p. freed p ∙ freed_in m p a s ((b, t) ∷ xs),
    )

-- `q_free` on a queue, with fuel for its strings: it ends, every element is freed, and no other
-- memory changes.
pub q_free_lem :
    (fuel : ℕ) (m : Memory Element) (q : Queue) (xs : Items)
    → IsQueue m q xs
    → length xs ≤ fuel
    → (m' : Memory Element) × (q_free fuel (some q) m ≡ ended tt m')
      × ((p : ℕ) → m' p ≡ (if holds p xs then none else m p))
unfolding q_free
q_free_lem fuel m q [] st lt = (m, rw st.head, λ p. refl)
q_free_lem fuel m q ((a, s) ∷ xs) st lt =
    let z : (a == 0) ≡ false = ground (arith, st.chain.1) in
    let tail : q.tail ≡ last_or a xs = st.tail (λ h. st.chain.1 (sym st.head ∙ h)) in
    let (m', run, freed) = free_until-freed fuel m a s xs st.chain (omega arith) in
    (m', rw (st.head, tail, z) run, freed)
