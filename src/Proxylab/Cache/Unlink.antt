-- ===== src/Proxylab/Cache/Unlink.antt =====
-- The three ways in which remove_from_cache of proxylab/cache.c unlinks a node.
use introduction_to_computer.Common.{
  ℕ, zero, suc, ◌≡◌, ◌≢◌, refl, true, false, [], ◌∷◌, some, none, ◌==◌, if◌then◌else◌, arith,
  Memory, load-ended, store-ended, release-ended, release, ended, update, Code, give, ◌>>=◌, ◌>>◌,
}
use introduction_to_computer.Proxylab.Cache.{Node, Cache, set_prev, set_next, unlink, size_add}
use introduction_to_computer.Proxylab.Cache.Linked.{
  Block, Blocks, node, first, holds, Linked, Linked-frame, block_at, erase,
}

module _ (m : Memory Node) (p q r : ℕ) (b : Block) (e : m p ≡ some (node q r b)) (nz : p ≢ 0) where
  pub set_prev-ended : (s : ℕ) → set_prev p s m ≡ ended tt (update m p (some (node s r b)))
  unfolding set_prev
  set_prev-ended s =
      rw (load-ended m p (node q r b) e nz) (store-ended m p (node q r b) e nz (node s r b))

  pub set_next-ended : (s : ℕ) → set_next p s m ≡ ended tt (update m p (some (node q s b)))
  unfolding set_next
  set_next-ended s =
      rw (load-ended m p (node q r b) e nz) (store-ended m p (node q r b) e nz (node q s b))

-- What is left behind by taking the node `p` out of the blocks `xs`, which stand behind the node
-- `prev` (or at the head of the cache, if that is null).
pub record Removed (m : Memory Node) (p prev pp : ℕ) (pb : Block) (xs : Blocks) (c c' : Cache)
    (m' : Memory Node) : Type 0 where
  pub linked : Linked m' prev (erase p xs)
  pub before : prev ≢ 0 → m' prev ≡ some (node pp (first (erase p xs)) pb)
  pub same : (q : ℕ) → holds q xs ≡ false → q ≢ prev → m' q ≡ m q
  pub gone : m' p ≡ none
  pub head : c'.head ≡ (if prev == 0 then first (erase p xs) else c.head)
  pub slots : (b : Block) → block_at p xs ≡ some b → c'.slots ≡ size_add c.slots b.size

-- The part of the loop's body that is run at the node that is looked for.
abbrev pub take_out : Cache → ℕ → Node → Code Node Cache
take_out c a n = do
  head ← unlink c.head a n
  release a
  give (record { head = head; slots = size_add c.slots n.size })

-- The case of a node at the start of the blocks.
Removed-first :
    (m : Memory Node) (a prev pp : ℕ) (b pb : Block) (ys : Blocks) (c c' : Cache) (m' : Memory Node)
    → Linked m' prev ys
    → (prev ≢ 0 → m' prev ≡ some (node pp (first ys) pb))
    → ((q : ℕ) → (q == a) ≡ false → holds q ys ≡ false → q ≢ prev → m' q ≡ m q)
    → m' a ≡ none
    → c'.head ≡ (if prev == 0 then first ys else c.head)
    → c'.slots ≡ size_add c.slots b.size
    → Removed m a prev pp pb ((a, b) ∷ ys) c c' m'
Removed-first m a prev pp b pb ys c c' m' l before same gone head slots =
    let self : (a == a) ≡ true = ground arith in
    record {
      linked = rw self l;
      before = λ nz. rw self (before nz);
      same = λ q out ne. same q (ground arith) (ground arith) ne;
      gone = gone;
      head = rw self head;
      slots = λ d at. let same_b : b ≡ d = ground arith in rw (← same_b) slots;
    }

module _ (m : Memory Node) (c : Cache) (a pp : ℕ) (b pb : Block) (nz : a ≢ 0) where
  head_alone :
      m a ≡ some (node 0 0 b)
      → (c' : Cache) × (m' : Memory Node) × (take_out c a (node 0 0 b) m ≡ ended c' m')
        × Removed m a 0 pp pb ((a, b) ∷ []) c c' m'
  unfolding unlink
  head_alone e =
      let c' : Cache = record { head = 0; slots = size_add c.slots b.size } in
      let m' : Memory Node = update m a none in
      (
        c',
        m',
        rw (release-ended m a (node 0 0 b) e nz),
        Removed-first m a 0 pp b pb [] c c' m' tt (λ z. absurd (z refl))
            (λ q ne out np. ground arith) (ground arith) refl refl,
      )

  head_before :
      (y : ℕ) (d : Block) (zs : Blocks)
      → m a ≡ some (node 0 y b)
      → Linked m a ((y, d) ∷ zs)
      → holds a ((y, d) ∷ zs) ≡ false
      → (c' : Cache) × (m' : Memory Node) × (take_out c a (node 0 y b) m ≡ ended c' m')
        × Removed m a 0 pp pb ((a, b) ∷ (y, d) ∷ zs) c c' m'
  unfolding unlink
  head_before y d zs e (ey, nzy, newy, l) out =
      let c' : Cache = record { head = y; slots = size_add c.slots b.size } in
      let m1 : Memory Node = update m y (some (node 0 (first zs) d)) in
      let m2 : Memory Node = update m1 a (some (node 0 0 b)) in
      let m3 : Memory Node = update m2 a none in
      let zy : (y == 0) ≡ false = ground arith in
      let e1 : m1 a ≡ some (node 0 y b) = ground arith in
      let e2 : m2 a ≡ some (node 0 0 b) = ground arith in
      let l3 : Linked m3 y zs = Linked-frame m m3 y zs l (λ q h. ground arith) in
      (
        c',
        m3,
        rw (zy, set_prev-ended m y a (first zs) d ey nzy 0)
            (rw (set_next-ended m1 a 0 y b e1 nz 0) (rw (release-ended m2 a (node 0 0 b) e2 nz))),
        Removed-first m a 0 pp b pb ((y, d) ∷ zs) c c' m3 (ground arith, nzy, newy, l3)
            (λ z. absurd (z refl)) (λ q ne o np. ground arith) (ground arith) refl refl,
      )

  module _ (prev : ℕ) (pnz : prev ≢ 0) (apart : (prev == a) ≡ false) where
    last_behind :
        m prev ≡ some (node pp a pb)
        → m a ≡ some (node prev 0 b)
        → (c' : Cache) × (m' : Memory Node) × (take_out c a (node prev 0 b) m ≡ ended c' m')
          × Removed m a prev pp pb ((a, b) ∷ []) c c' m'
    unfolding unlink
    last_behind ep e =
        let c' : Cache = record { head = c.head; slots = size_add c.slots b.size } in
        let m1 : Memory Node = update m prev (some (node pp 0 pb)) in
        let m2 : Memory Node = update m1 a (some (node 0 0 b)) in
        let m3 : Memory Node = update m2 a none in
        let zp : (prev == 0) ≡ false = ground arith in
        let e1 : m1 a ≡ some (node prev 0 b) = ground arith in
        let e2 : m2 a ≡ some (node 0 0 b) = ground arith in
        (
          c',
          m3,
          rw (zp, set_next-ended m prev pp a pb ep pnz 0)
              (rw (set_prev-ended m1 a prev 0 b e1 nz 0)
                (rw (release-ended m2 a (node 0 0 b) e2 nz))),
          Removed-first m a prev pp b pb [] c c' m3 tt (λ z. ground arith)
              (λ q ne o np. ground arith) (ground arith) (rw zp) refl,
        )

    middle_behind :
        (y : ℕ) (d : Block) (zs : Blocks)
        → m prev ≡ some (node pp a pb)
        → m a ≡ some (node prev y b)
        → Linked m a ((y, d) ∷ zs)
        → holds a ((y, d) ∷ zs) ≡ false
        → holds prev ((y, d) ∷ zs) ≡ false
        → (c' : Cache) × (m' : Memory Node) × (take_out c a (node prev y b) m ≡ ended c' m')
          × Removed m a prev pp pb ((a, b) ∷ (y, d) ∷ zs) c c' m'
    unfolding unlink
    middle_behind y d zs ep e (ey, nzy, newy, l) out outp =
        let c' : Cache = record { head = c.head; slots = size_add c.slots b.size } in
        let m1 : Memory Node = update m prev (some (node pp y pb)) in
        let m2 : Memory Node = update m1 y (some (node prev (first zs) d)) in
        let m3 : Memory Node = update m2 a (some (node 0 y b)) in
        let m4 : Memory Node = update m3 a (some (node 0 0 b)) in
        let m5 : Memory Node = update m4 a none in
        let zp : (prev == 0) ≡ false = ground arith in
        let zy : (y == 0) ≡ false = ground arith in
        let ne1 : (y == prev) ≡ false = ground arith in
        let ne2 : (a == y) ≡ false = ground arith in
        let ne3 : (a == prev) ≡ false = ground arith in
        let ne4 : (y == a) ≡ false = ground arith in
        let ne5 : (prev == y) ≡ false = ground arith in
        let e1 : m1 y ≡ some (node a (first zs) d) = rw (ne1, ey) in
        let e2 : m2 a ≡ some (node prev y b) = rw (ne2, ne3, e) in
        let e3 : m3 a ≡ some (node 0 y b) = ground arith in
        let e4 : m4 a ≡ some (node 0 0 b) = ground arith in
        let self : (y == y) ≡ true = ground arith in
        let selfp : (prev == prev) ≡ true = ground arith in
        let ey5 : m5 y ≡ some (node prev (first zs) d) = rw (ne4, self) in
        let ep5 : m5 prev ≡ some (node pp y pb) = rw (apart, ne5, selfp) in
        let l5 : Linked m5 y zs = Linked-frame m m5 y zs l (λ q h. spared q h out outp newy) in
        (
          c',
          m5,
          rw (zp, zy, set_next-ended m prev pp a pb ep pnz y)
              (rw (set_prev-ended m1 y a (first zs) d e1 nzy prev) (
                rw (set_prev-ended m2 a prev y b e2 nz 0) (
                  rw (set_next-ended m3 a 0 y b e3 nz 0)
                    (rw (release-ended m4 a (node 0 0 b) e4 nz))))),
          Removed-first m a prev pp b pb ((y, d) ∷ zs) c c' m5 (ey5, nzy, newy, l5) (λ z. ep5)
              (λ q ne o np.
                let n1 : (q == y) ≡ false = ground arith in
                let n2 : (q == prev) ≡ false = ground arith in rw (ne, n1, n2))
              (ground arith) (rw zp) refl,
        )
      where
        spared :
            (q : ℕ)
            → holds q zs ≡ true
            → holds a ((y, d) ∷ zs) ≡ false
            → holds prev ((y, d) ∷ zs) ≡ false
            → holds y zs ≡ false
            → update
                (update
                  (update
                    (update (update m prev (some (node pp y pb))) y (some (node prev (first zs) d)))
                    a
                    (some (node 0 y b)))
                  a
                  (some (node 0 0 b)))
                a
                none
                q
              ≡ m q
        spared q h oa op oy = ground arith

-- The four cases of a node that is found.
pub take_out-Removed :
    (m : Memory Node) (c : Cache) (a prev pp : ℕ) (b pb : Block) (ys : Blocks)
    → m a ≡ some (node prev (first ys) b)
    → a ≢ 0
    → holds a ys ≡ false
    → Linked m a ys
    → (prev ≢ 0 → m prev ≡ some (node pp a pb))
    → holds prev ((a, b) ∷ ys) ≡ false
    → (c' : Cache) × (m' : Memory Node) × (take_out c a (node prev (first ys) b) m ≡ ended c' m')
      × Removed m a prev pp pb ((a, b) ∷ ys) c c' m'
take_out-Removed m c a zero pp b pb [] e nz new l before out = head_alone m c a pp b pb nz e
take_out-Removed m c a zero pp b pb ((y, d) ∷ zs) e nz new l before out =
    head_before m c a pp b pb nz y d zs e l new
take_out-Removed m c a (suc k) pp b pb [] e nz new l before out =
    last_behind m c a pp b pb nz (suc k) (λ z. cc z) (ground arith) (before (λ z. cc z)) e
take_out-Removed m c a (suc k) pp b pb ((y, d) ∷ zs) e nz new l before out =
    middle_behind m c a pp b pb nz (suc k) (λ z. cc z) (ground arith) y d zs (before (λ z. cc z)) e
      l new (ground arith)
