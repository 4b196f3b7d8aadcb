-- ===== src/Proxylab/Doit/Contents.antt =====
-- What proxylab/proxy.c keeps true of the blocks in its cache.
use introduction_to_computer.Common.{
  ℕ, ◌<◌, ◌≡◌, ◌≢◌, ◌∙◌, refl, ap, true, false, [], ◌∷◌, some, ◌==◌, Text, take, same_text,
  same_text_sound, arith, Memory, Bool-cases, inl, inr, ==-apart,
}
use introduction_to_computer.Proxylab.Cache.{Node, min_age}
use introduction_to_computer.Proxylab.Cache.Linked.{
  Block, Blocks, Linked, block_at, block_at-holds, erase,
}
use introduction_to_computer.Proxylab.Cache.Search.{find_uri}
use introduction_to_computer.Proxylab.Cache.Free.{used_at}
use introduction_to_computer.Proxylab.Cache.Add.{Young, Young-erase, Evicted, enough, oldest}

abbrev pub Each : (Block → Type 0) → Blocks → Type 0
Each P [] = Unit {0}
Each P ((a, b) ∷ xs) = P b × Each P xs

-- A block holds what its server answers.
abbrev pub Fresh : (Text → Text) → Block → Type 0
Fresh origin b = take b.size b.obj ≡ origin b.uri

abbrev pub Other : Text → Block → Type 0
Other uri b = same_text b.uri uri ≡ false

-- No URI has two blocks.
abbrev pub Unique : Blocks → Type 0
Unique [] = Unit {0}
Unique ((a, b) ∷ xs) = Each (Other b.uri) xs × Unique xs

Each-erase : (P : Block → Type 0) (p : ℕ) (xs : Blocks) → Each P xs → Each P (erase p xs)
Each-erase P p [] h = tt
Each-erase P p ((a, b) ∷ xs) (hb, h) = elim (Bool-cases (p == a)) [
  | inl e ↦ rw e h
  | inr e ↦ rw e (hb, Each-erase P p xs h)
]

Unique-erase : (p : ℕ) (xs : Blocks) → Unique xs → Unique (erase p xs)
Unique-erase p [] h = tt
Unique-erase p ((a, b) ∷ xs) (hb, h) = elim (Bool-cases (p == a)) [
  | inl e ↦ rw e h
  | inr e ↦ rw e (Each-erase (Other b.uri) p xs hb, Unique-erase p xs h)
]

Each-used_at :
    (P : Block → Type 0) (p time : ℕ) (xs : Blocks)
    → ((b : Block) → P b → P (record b { age = time }))
    → Each P xs
    → Each P (used_at p time xs)
Each-used_at P p time [] keeps h = tt
Each-used_at P p time ((a, b) ∷ xs) keeps (hb, h) = elim (Bool-cases (p == a)) [
  | inl e ↦ rw e (keeps b hb, h)
  | inr e ↦ rw e (hb, Each-used_at P p time xs keeps h)
]

Unique-used_at : (p time : ℕ) (xs : Blocks) → Unique xs → Unique (used_at p time xs)
Unique-used_at p time [] h = tt
Unique-used_at p time ((a, b) ∷ xs) (hb, h) = elim (Bool-cases (p == a)) [
  | inl e ↦ rw e (hb, h)
  | inr e ↦ rw e (Each-used_at (Other b.uri) p time xs (λ c o. o) hb, Unique-used_at p time xs h)
]

Young-used_at : (p time : ℕ) (xs : Blocks) → time < min_age → Young xs → Young (used_at p time xs)
Young-used_at p time [] lt h = tt
Young-used_at p time ((a, b) ∷ xs) lt (hb, h) = elim (Bool-cases (p == a)) [
  | inl e ↦ rw e (lt, h)
  | inr e ↦ rw e (hb, Young-used_at p time xs lt h)
]

-- The contents of the cache for the servers' answers.
pub record Coherent (origin : Text → Text) (xs : Blocks) : Type 0 where
  pub fresh : Each (Fresh origin) xs
  pub unique : Unique xs
  pub young : Young xs

pub Coherent-used_at :
    (origin : Text → Text) (p time : ℕ) (xs : Blocks)
    → time < min_age
    → Coherent origin xs
    → Coherent origin (used_at p time xs)
Coherent-used_at origin p time xs lt c = record {
  fresh = Each-used_at (Fresh origin) p time xs (λ b e. e) c.fresh;
  unique = Unique-used_at p time xs c.unique;
  young = Young-used_at p time xs lt c.young;
}

pub Coherent-Evicted :
    (origin : Text → Text) (uri : Text) (size : ℕ) {xs ys : Blocks}
    → Evicted size xs ys
    → Coherent origin xs
    → Each (Other uri) xs
    → Coherent origin ys × Each (Other uri) ys
Coherent-Evicted origin uri size (enough fits) c o = (c, o)
Coherent-Evicted origin uri size (oldest {xs} p b need at since ev) c o =
    Coherent-Evicted origin uri size ev
      (record {
        fresh = Each-erase (Fresh origin) p xs c.fresh;
        unique = Unique-erase p xs c.unique;
        young = Young-erase p xs c.young;
      })
      (Each-erase (Other uri) p xs o)

-- A search that finds nothing.
pub find_uri-Other :
    (m : Memory Node) (prev : ℕ) (uri : Text) (xs : Blocks)
    → Linked m prev xs
    → find_uri uri xs ≡ 0
    → Each (Other uri) xs
find_uri-Other m prev uri [] l e = tt
find_uri-Other m prev uri ((a, b) ∷ xs) (at, nz, new, l) e =
    elim (Bool-cases (same_text b.uri uri)) [
      | inl hit ↦ absurd (nz (rw hit at e))
      | inr miss ↦ (miss, find_uri-Other m a uri xs l (rw miss at e))
    ]

-- A search that finds a block.
pub find_uri-block :
    (origin : Text → Text) (m : Memory Node) (prev : ℕ) (uri : Text) (xs : Blocks)
    → Linked m prev xs
    → Each (Fresh origin) xs
    → find_uri uri xs ≢ 0
    → (b : Block) × (block_at (find_uri uri xs) xs ≡ some b) × (take b.size b.obj ≡ origin uri)
find_uri-block origin m prev uri [] l f ne = absurd (ne refl)
find_uri-block origin m prev uri ((a, b) ∷ xs) (at, nz, new, l) (fb, f) ne =
    elim (Bool-cases (same_text b.uri uri)) [
      | inl hit ↦
          let self : (a == a) ≡ true = ground arith in
          (b, rw (hit, self), fb ∙ ap origin (same_text_sound b.uri uri hit))
      | inr miss ↦
          let (c, found, e) = find_uri-block origin m a uri xs l f (rw miss at ne) in
          let in_xs = block_at-holds (find_uri uri xs) xs c found in
          let apart = ==-apart (find_uri uri xs) a (λ same. cc (in_xs, new, same)) in
          let skipped : find_uri uri ((a, b) ∷ xs) ≡ find_uri uri xs = rw miss in
          (c, ap (λ p. block_at p ((a, b) ∷ xs)) skipped ∙ rw apart found, e)
    ]

-- The cache with a block for a URI that it did not hold.
pub Coherent-add :
    (origin : Text → Text) (elem : ℕ) (b : Block) (xs : Blocks)
    → Fresh origin b
    → b.age < min_age
    → Each (Other b.uri) xs
    → Coherent origin xs
    → Coherent origin ((elem, b) ∷ xs)
Coherent-add origin elem b xs f lt o c = record {
  fresh = (f, c.fresh);
  unique = (o, c.unique);
  young = (lt, c.young);
}
