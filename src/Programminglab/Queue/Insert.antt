-- ===== src/Programminglab/Queue/Insert.antt =====
-- q_insert_head and q_insert_tail of cprogramminglab-handout/queue.c.
use introduction_to_computer.Common.{
  ℕ, ◌+◌, ◌≡◌, ◌≢◌, refl, sym, true, false, ◌++◌, [], ◌∷◌, some, none, ◌==◌, if◌then◌else◌, Text,
  arith, update_self, update_other, ==-apart, length-append, Memory, update, ◌∙◌, ended, load-ended,
  store-ended, fill,
}
use introduction_to_computer.Programminglab.Queue.{
  Element, element, Queue, q_insert_head, q_insert_tail, insert_with, link_head, link_tail,
}
use introduction_to_computer.Programminglab.Queue.Chain.{
  holds-apart, Items, last_or, holds, Chain, IsQueue, Chain-update, holds-free, holds-last,
  last_or-nonnull, last_or-append, holds-append,
}

-- `q_insert_head` with room for the element at the free address `elem` and for its string, on a
-- queue that has no tail left if it is empty: the string becomes the first one, and no other
-- memory changes.
pub q_insert_head_lem :
    (m : Memory Element) (q : Queue) (xs : Items) (elem : ℕ) (s : Text)
    → IsQueue m q xs
    → (q.head ≡ 0 → q.tail ≡ 0)
    → elem ≢ 0
    → m elem ≡ none
    → (q' : Queue) × (m' : Memory Element) × (q_insert_head elem true (some q) s m
        ≡ ended (some q', true) m')
      × IsQueue m' q' ((elem, s) ∷ xs)
      × (q'.tail ≢ 0)
      × ((p : ℕ) → p ≢ elem → m' p ≡ m p)
unfolding q_insert_head insert_with link_head fill
q_insert_head_lem m q xs elem s st at_empty nz free =
    let z : (elem == 0) ≡ false = ground arith in
    let out = holds-free m 0 elem xs st.chain free in
    let tail = tail_after m q xs elem st at_empty nz in
    let q' : Queue = record {
      head = elem;
      tail = if q.tail == 0 then elem else q.tail;
      size = q.size + 1;
    } in
    (
      q',
      update m elem (some (element s q.head)),
      rw z,
      record {
        chain = (ground (arith, st.head), nz, out, Chain-update m 0 xs elem _ st.chain out);
        head = refl;
        tail = λ _. tail;
        size = omega (arith, st.size);
      },
      (λ e. last_or-nonnull m 0 elem xs nz st.chain (sym tail ∙ e)),
      λ p ne. ground arith,
    )
  where
    tail_after :
        (m : Memory Element) (q : Queue) (xs : Items) (elem : ℕ)
        → IsQueue m q xs
        → (q.head ≡ 0 → q.tail ≡ 0)
        → elem ≢ 0
        → (if q.tail == 0 then elem else q.tail) ≡ last_or elem xs
    tail_after m q [] elem st at_empty nz = rw (at_empty st.head)
    tail_after m q ((a, t) ∷ xs) elem st at_empty nz =
        let e = st.tail (λ h. st.chain.1 (sym st.head ∙ h)) in
        let nonnull = last_or-nonnull m 0 a xs (st.chain.1) (st.chain.3) in
        let z : (last_or a xs == 0) ≡ false = ground arith in rw (e, z)

-- The last element is linked to a new one.
Chain-append :
    (m : Memory Element) (a : ℕ) (s : Text) (xs : Items) (elem : ℕ) (t : Text)
    → Chain m 0 ((a, s) ∷ xs)
    → elem ≢ 0
    → holds elem ((a, s) ∷ xs) ≡ false
    → (u : Text) × (m (last_or a xs) ≡ some (element u 0))
      × ((m' : Memory Element)
          → (m' elem ≡ some (element t 0))
          → (m' (last_or a xs) ≡ some (element u elem))
          → ((p : ℕ) → p ≢ elem → p ≢ last_or a xs → m' p ≡ m p)
          → Chain m' 0 (((a, s) ∷ xs) ++ ((elem, t) ∷ [])))
Chain-append m a s [] elem t (e, nz, new, c) nz' out =
    (s, e, λ m' at_elem at_last same. (at_last, nz, ground arith, (at_elem, nz', refl, tt)))
Chain-append m a s ((b, r) ∷ xs) elem t (e, nz, new, c) nz' out =
    let (u, at, chained) = Chain-append m b r xs elem t c nz' (ground arith) in
    let last_in = holds-last b r xs in
    let apart : a ≢ last_or b xs =
      λ h. holds-apart (last_or b xs) a ((b, r) ∷ xs) last_in new (sym h) in
    let a_new : a ≢ elem = ground arith in
    (
      u,
      at,
      λ m' at_elem at_last same. (
        same a a_new apart ∙ e,
        nz,
        holds-append a ((b, r) ∷ xs) ((elem, t) ∷ []) ∙ rw new (ground arith),
        chained m' at_elem at_last same,
      ),
    )

insert_tail-IsQueue :
    (m m1 : Memory Element) (q : Queue) (xs : Items) (elem : ℕ) (s : Text)
    → IsQueue m q xs
    → elem ≢ 0
    → m elem ≡ none
    → (m1 ≡ update m elem (some (element s 0)))
    → (q' : Queue) × (m' : Memory Element) × (link_tail elem q s m ≡ ended (q', true) m')
      × IsQueue m' q' (xs ++ ((elem, s) ∷ []))
      × (q'.tail ≡ elem)
      × ((p : ℕ) → p ≢ elem → holds p xs ≡ false → m' p ≡ m p)
unfolding link_tail fill
insert_tail-IsQueue m m1 q [] elem s st nz free made =
    let z : (q.size + 1 == 1) ≡ true = ground (arith, st.size) in
    let q' : Queue = record { head = elem; tail = elem; size = q.size + 1 } in
    (
      q',
      m1,
      rw (z, made),
      record {
        chain = (rw made (ground arith), nz, refl, tt);
        head = refl;
        tail = λ _. refl;
        size = omega (arith, st.size);
      },
      refl,
      λ p ne out. rw made (ground arith),
    )
insert_tail-IsQueue m m1 q ((a, t) ∷ xs) elem s st nz free made =
    let z : (q.size + 1 == 1) ≡ false = ground (arith, st.size) in
    let q' : Queue = record { head = q.head; tail = elem; size = q.size + 1 } in
    let last = last_or a xs in
    let out = holds-free m 0 elem ((a, t) ∷ xs) st.chain free in
    let last_in = holds-last a t xs in
    let (u, at, chained) = Chain-append m a t xs elem s st.chain nz out in
    let apart = holds-apart last elem ((a, t) ∷ xs) last_in out in
    let at1 : m1 last ≡ some (element u 0) = rw made (update_other m elem last _ apart ∙ at) in
    let last_nz : last ≢ 0 = last_or-nonnull m 0 a xs (st.chain.1) (st.chain.3) in
    let e : q.tail ≡ last = st.tail (λ h. st.chain.1 (sym st.head ∙ h)) in
    let m' : Memory Element = update m1 last (some (element u elem)) in
    (
      q',
      m',
      rw (
        z,
        e,
        ← made,
        load-ended m1 last _ at1 last_nz,
        store-ended m1 last _ at1 last_nz (element u elem),
      ),
      record {
        chain =
            chained m'
              (update_other m1 last elem _ (λ h. apart (sym h))
                ∙ rw made (update_self m elem (some (element s 0))))
              (update_self m1 last _)
              (λ p n1 n2. update_other m1 last p _ n2 ∙ rw made (update_other m elem p _ n1));
        head = st.head;
        tail = λ _. sym (last_or-append 0 elem s ((a, t) ∷ xs));
        size = rw (length-append ((a, t) ∷ xs) ((elem, s) ∷ [])) (omega (arith, st.size));
      },
      refl,
      λ p ne o.
          update_other m1 last p _ (λ h. holds-apart last p ((a, t) ∷ xs) last_in o (sym h))
          ∙ rw made (update_other m elem p _ ne),
    )

-- `q_insert_tail` with room for the element at the free address `elem` and for its string, on a
-- queue: the string becomes the last one, and only the element in front of it changes besides.
pub q_insert_tail_lem :
    (m : Memory Element) (q : Queue) (xs : Items) (elem : ℕ) (s : Text)
    → IsQueue m q xs
    → elem ≢ 0
    → m elem ≡ none
    → (q' : Queue) × (m' : Memory Element) × (q_insert_tail elem true (some q) s m
        ≡ ended (some q', true) m')
      × IsQueue m' q' (xs ++ ((elem, s) ∷ []))
      × (q'.tail ≡ elem)
      × ((p : ℕ) → p ≢ elem → holds p xs ≡ false → m' p ≡ m p)
unfolding q_insert_tail insert_with
q_insert_tail_lem m q xs elem s st nz free =
    let z = ==-apart elem 0 nz in
    let (q', m', run, represents, at, same) =
      insert_tail-IsQueue m (update m elem (some (element s 0))) q xs elem s st nz free refl in
    (q', m', rw (z, run), represents, at, same)
