-- ===== src/Programminglab/Queue/Chain.antt =====
-- What the elements of cprogramminglab-handout/queue.c stand for: strings with the addresses of
-- their elements, in order.
use introduction_to_computer.Common.{
  ℕ, ◌≡◌, ◌≢◌, refl, Bool, true, false, ◌||◌, ◌++◌, List, [], ◌∷◌, Option, some, none, ◌==◌, Text,
  arith, length, Memory, update, Bool-cases, inl, inr,
}
use introduction_to_computer.Programminglab.Queue.{Element, element, Queue}

abbrev pub Items : Type 0
Items = List (ℕ × Text)

abbrev pub first_or : ℕ → Items → ℕ
first_or d [] = d
first_or d ((a, s) ∷ xs) = a

abbrev pub last_or : ℕ → Items → ℕ
last_or d [] = d
last_or d ((a, s) ∷ xs) = last_or a xs

abbrev pub holds : ℕ → Items → Bool
holds p [] = false
holds p ((a, s) ∷ xs) = p == a || holds p xs

-- The elements of `xs` stand in `m`, each linked to the next and the last one to `stop`.
abbrev pub Chain : Memory Element → (stop : ℕ) → Items → Type 0
Chain m stop [] = Unit {0}
Chain m stop ((a, s) ∷ xs) =
    (m a ≡ some (element s (first_or stop xs))) × (a ≢ 0) × (holds a xs ≡ false) × Chain m stop xs

-- The queue stands for the items `xs`. An empty queue may have any tail.
pub record IsQueue (m : Memory Element) (q : Queue) (xs : Items) : Type 0 where
  pub chain : Chain m 0 xs
  pub head : q.head ≡ first_or 0 xs
  pub tail : q.head ≢ 0 → q.tail ≡ last_or 0 xs
  pub size : q.size ≡ length xs

pub Chain-frame :
    (m m' : Memory Element) (stop : ℕ) (xs : Items)
    → Chain m stop xs
    → ((p : ℕ) → holds p xs ≡ true → m' p ≡ m p)
    → Chain m' stop xs
Chain-frame m m' stop [] c same = tt
Chain-frame m m' stop ((a, s) ∷ xs) (e, nz, new, c) same =
    (ground (arith, same a), nz, new, Chain-frame m m' stop xs c (λ p h. same p (ground arith)))

pub Chain-update :
    (m : Memory Element) (stop : ℕ) (xs : Items) (p : ℕ) (c : Option Element)
    → Chain m stop xs
    → holds p xs ≡ false
    → Chain (update m p c) stop xs
Chain-update m stop xs p c l out = Chain-frame m (update m p c) stop xs l (λ q h. ground (arith))

-- A free cell is not in the list.
pub holds-free :
    (m : Memory Element) (stop p : ℕ) (xs : Items)
    → Chain m stop xs
    → m p ≡ none
    → holds p xs ≡ false
holds-free m stop p [] c free = refl
holds-free m stop p ((a, s) ∷ xs) (e, nz, new, c) free = elim (Bool-cases (p == a)) [
  | inl hit ↦ let same : p ≡ a = ground arith in absurd (cc (e, free, same))
  | inr miss ↦ rw miss (holds-free m stop p xs c free)
]

pub holds-last : (a : ℕ) (s : Text) (xs : Items) → holds (last_or a xs) ((a, s) ∷ xs) ≡ true
holds-last a s [] = ground arith
holds-last a s ((b, t) ∷ xs) = rw (holds-last b t xs) (ground arith)

pub last_or-nonnull :
    (m : Memory Element) (stop a : ℕ) (xs : Items) → a ≢ 0 → Chain m stop xs → last_or a xs ≢ 0
last_or-nonnull m stop a [] nz c = nz
last_or-nonnull m stop a ((b, t) ∷ xs) nz (e, nz', new, c) = last_or-nonnull m stop b xs nz' c

pub last_or-append : (d a : ℕ) (s : Text) (xs : Items) → last_or d (xs ++ ((a, s) ∷ [])) ≡ a
last_or-append d a s [] = refl
last_or-append d a s ((b, t) ∷ xs) = last_or-append b a s xs

pub holds-append : (p : ℕ) (xs ys : Items) → holds p (xs ++ ys) ≡ (holds p xs || holds p ys)
holds-append p [] ys = refl
holds-append p ((b, t) ∷ xs) ys = rw (holds-append p xs ys) (ground arith)

pub holds-apart : (p q : ℕ) (xs : Items) → holds p xs ≡ true → holds q xs ≡ false → p ≢ q
holds-apart p q xs h o = λ e. cc (h, o, e)

pub holds-behind :
    (p a : ℕ) (s : Text) (xs : Items)
    → holds p ((a, s) ∷ xs) ≡ false
    → (p ≢ a) × (holds p xs ≡ false)
holds-behind p a s xs h = (ground arith, ground arith)

pub holds-more :
    (p a : ℕ) (s : Text) (xs : Items) → p ≢ a → holds p xs ≡ false → holds p ((a, s) ∷ xs) ≡ false
holds-more p a s xs ne h = ground arith

pub holds_self : (a : ℕ) (s : Text) (xs : Items) → holds a ((a, s) ∷ xs) ≡ true
holds_self a s xs = ground arith

pub holds-rest :
    (p a : ℕ) (s : Text) (xs : Items) → holds p xs ≡ true → holds p ((a, s) ∷ xs) ≡ true
holds-rest p a s xs h = ground arith
