-- ===== src/Programminglab/Queue/Reverse.antt =====
-- q_reverse of cprogramminglab-handout/queue.c: the first element becomes the last one, and each
-- of the others is moved behind the old tail.
use introduction_to_computer.Common.{
  ℕ, zero, suc, ◌+◌, ◌<◌, ◌≤◌, ◌≡◌, ◌≢◌, refl, ap, sym, true, false, [], ◌∷◌, some, ◌==◌, Text,
  arith, length, update_self, update_other, ==-apart, length-append, Memory, update, ◌∙◌,
  Bool-cases, inl, inr, ended, load-ended, store-ended, reverse, reverse_aux,
}
use introduction_to_computer.Programminglab.Queue.{
  Element, element, Queue, q_reverse, reverse_links, reverse_loop,
}
use introduction_to_computer.Programminglab.Queue.Split.{
  not_part, Chain-split, reverse_aux-last, last_or-reverse_aux, length-reverse_aux,
}
use introduction_to_computer.Programminglab.Queue.Chain.{
  holds-apart, holds-behind, holds-more, holds_self, holds-rest, Items, first_or, last_or, holds,
  Chain, IsQueue, Chain-update, last_or-nonnull, holds-last,
}

-- While the loop runs: `rs` are the elements still to be moved, up to the old tail at `end`, and
-- `end` and `ds` stand in their new order.
record Moving (m : Memory Element) (end : ℕ) (t : Text) (rs ds : Items) : Type 0 where
  todo : Chain m end rs
  done : Chain m 0 ((end, t) ∷ ds)
  apart : (p : ℕ) → holds p rs ≡ true → holds p ((end, t) ∷ ds) ≡ false

move_one :
    (m : Memory Element) (end : ℕ) (t : Text) (b : ℕ) (u : Text) (rs ds : Items)
    → Moving m end t ((b, u) ∷ rs) ds
    → Moving
        (update (update m end (some (element t b))) b (some (element u (first_or 0 ds))))
        end
        t
        rs
        ((b, u) ∷ ds)
move_one m end t b u rs ds v =
    let (e, nz, new, c) = v.todo in
    let (e', nz', new', c') = v.done in
    let b_in = holds_self b u rs in
    let b_out = v.apart b b_in in
    let (b_end, b_free) = holds-behind b end t ds b_out in
    let ne : end ≢ b = λ h. b_end (sym h) in
    let end_out : holds end rs ≡ false = elim (Bool-cases (holds end rs)) [
      | inl h ↦ absurd ((holds-behind end end t ds (v.apart end (holds-rest end b u rs h))).0 refl)
      | inr h ↦ h
    ] in
    record {
      todo = Chain-update _ end rs b _ (Chain-update m end rs end _ c end_out) new;
      done = (
        update_other (update m end (some (element t b))) b end _ ne ∙ update_self m end _,
        nz',
        holds-more end b u ds ne new',
        (
          update_self (update m end (some (element t b))) b _,
          nz,
          b_free,
          Chain-update _ 0 ds b _ (Chain-update m 0 ds end _ c' new') b_free,
        ),
      );
      apart = λ p h.
          let (p_end, p_out) = holds-behind p end t ds (v.apart p (holds-rest p b u rs h)) in
          holds-more p end t ((b, u) ∷ ds) p_end
            (holds-more p b u ds (holds-apart p b rs h new) p_out);
    }

reverse_loop-ended :
    (fuel : ℕ) (m : Memory Element) (end : ℕ) (t : Text) (rs ds : Items)
    → Moving m end t rs ds
    → length rs < fuel
    → (m' : Memory Element) × (reverse_loop fuel (first_or end rs) end m ≡ ended end m')
      × Chain m' 0 ((end, t) ∷ reverse_aux rs ds)
      × ((p : ℕ) → p ≢ end → holds p rs ≡ false → m' p ≡ m p)
unfolding reverse_loop
reverse_loop-ended zero m end t rs ds v lt = absurd (omega arith)
reverse_loop-ended (suc fuel) m end t [] ds v lt =
    let self : (end == end) ≡ true = ground arith in (m, rw self, v.done, λ p ne out. refl)
reverse_loop-ended (suc fuel) m end t ((b, u) ∷ rs) ds v lt =
    let (e, nz, new, c) = v.todo in
    let (e', nz', new', c') = v.done in
    let b_in = holds_self b u rs in
    let b_out = v.apart b b_in in
    let (b_end, b_free) = holds-behind b end t ds b_out in
    let z = ==-apart b end b_end in
    let m1 : Memory Element = update m end (some (element t b)) in
    let m2 : Memory Element = update m1 b (some (element u (first_or 0 ds))) in
    let e1 : m1 b ≡ some (element u (first_or end rs)) = update_other m end b _ b_end ∙ e in
    let (m', run, chain, same) =
      reverse_loop-ended fuel m2 end t rs ((b, u) ∷ ds) (move_one m end t b u rs ds v)
        (omega arith) in
    (
      m',
      rw
          (
            z,
            load-ended m end _ e' nz',
            store-ended m end _ e' nz' (element t b),
            load-ended m1 b _ e1 nz,
            store-ended m1 b _ e1 nz (element u (first_or 0 ds)),
          )
          run,
      chain,
      λ p ne out.
          let (p_b, p_out) = holds-behind p b u rs out in
          same p ne p_out ∙ update_other m1 b p _ p_b ∙ update_other m end p _ ne,
    )

-- The first element at `a`, elements `rs` behind it and the old tail at `end`.
reverse_links-ended :
    (fuel : ℕ) (m : Memory Element) (q : Queue) (a end : ℕ) (s t : Text) (rs : Items)
    → q.head ≡ a
    → q.tail ≡ end
    → (a ≢ 0) × (end ≢ 0) × (end ≢ a)
    → m a ≡ some (element s (first_or end rs))
    → m end ≡ some (element t 0)
    → Chain m end rs
    → holds end rs ≡ false
    → holds a rs ≡ false
    → length rs < fuel
    → (m' : Memory Element) × (reverse_links fuel q m
        ≡ ended (record q { head = end; tail = a }) m')
      × Chain m' 0 ((end, t) ∷ reverse_aux rs ((a, s) ∷ []))
      × ((p : ℕ) → p ≢ a → p ≢ end → holds p rs ≡ false → m' p ≡ m p)
unfolding reverse_links
reverse_links-ended fuel m q a end s t rs hd tl (nz, end_nz, ne) at_a at_end chain end_out a_out
      lt =
    let m1 : Memory Element = update m end (some (element t a)) in
    let m2 : Memory Element = update m1 a (some (element s 0)) in
    let at_a1 : m1 a ≡ some (element s (first_or end rs)) =
      update_other m end a _ (λ h. ne (sym h)) ∙ at_a in
    let start : Moving m2 end t rs ((a, s) ∷ []) = record {
      todo = Chain-update m1 end rs a _ (Chain-update m end rs end _ chain end_out) a_out;
      done = (
        update_other m1 a end _ ne ∙ update_self m end _,
        end_nz,
        holds-more end a s [] ne refl,
        (update_self m1 a _, nz, refl, tt),
      );
      apart = λ p h.
          holds-more p end t ((a, s) ∷ []) (holds-apart p end rs h end_out)
            (holds-more p a s [] (holds-apart p a rs h a_out) refl);
    } in
    let (m', run, reversed, same) = reverse_loop-ended fuel m2 end t rs ((a, s) ∷ []) start lt in
    (
      m',
      rw (
        hd,
        tl,
        load-ended m end _ at_end end_nz,
        store-ended m end _ at_end end_nz (element t a),
        load-ended m1 a _ at_a1 nz,
        store-ended m1 a _ at_a1 nz (element s 0),
        run,
      ),
      reversed,
      λ p n1 n2 out. same p n2 out ∙ update_other m1 a p _ n1 ∙ update_other m end p _ n2,
    )

-- `q_reverse` on a queue, with fuel for its strings: it ends, and the queue stands for the same
-- elements in the opposite order. No other memory changes.
pub q_reverse_lem :
    (fuel : ℕ) (m : Memory Element) (q : Queue) (xs : Items)
    → IsQueue m q xs
    → length xs ≤ fuel
    → (q' : Queue) × (m' : Memory Element) × (q_reverse fuel (some q) m ≡ ended (some q') m')
      × IsQueue m' q' (reverse xs)
      × ((p : ℕ) → holds p xs ≡ false → m' p ≡ m p)
unfolding q_reverse
q_reverse_lem fuel m q [] st le = (q, m, rw st.head, st, λ p out. refl)
q_reverse_lem fuel m q ((a, s) ∷ []) st le =
    let z : (q.head == 0) ≡ false = ==-apart q.head 0 (λ h. st.chain.1 (sym st.head ∙ h)) in
    (q, m, rw (z, st.size), st, λ p out. refl)
q_reverse_lem fuel m q ((a, s) ∷ (b, r) ∷ xs) st le =
    let (e, nz, new, c) = st.chain in
    let z = ==-apart q.head 0 (λ h. nz (sym st.head ∙ h)) in
    let two = ==-apart q.size 1 (λ h. omega (arith, st.size, h)) in
    let (rs, t, eq, fst, chain, at, out, part) = Chain-split m b r xs c in
    let end = last_or b xs in
    let tail : q.tail ≡ end = st.tail (λ h. nz (sym st.head ∙ h)) in
    let end_in = holds-last b r xs in
    let end_nz = last_or-nonnull m 0 b xs (c.1) (c.3) in
    let ne = holds-apart end a ((b, r) ∷ xs) end_in new in
    let len : length ((b, r) ∷ xs) ≡ length rs + 1 =
      ap length eq ∙ length-append rs ((end, t) ∷ []) in
    let (m', run, reversed, same) =
      reverse_links-ended fuel m q a end s t rs st.head tail (nz, end_nz, ne)
        (e ∙ ap (λ x. some (element s x)) (sym fst)) at chain out
        (not_part a rs ((b, r) ∷ xs) part new) (omega (arith, len, le)) in
    let turned : reverse ((a, s) ∷ (b, r) ∷ xs) ≡ (end, t) ∷ reverse_aux rs ((a, s) ∷ []) =
      ap (λ ys. reverse_aux ys ((a, s) ∷ [])) eq ∙ reverse_aux-last rs ((a, s) ∷ []) (end, t) in
    (
      record q { head = end; tail = a },
      m',
      rw (z, two, run),
      record {
        chain = rw turned reversed;
        head = rw turned;
        tail = λ _. rw turned (sym (last_or-reverse_aux end a s rs []));
        size = omega (arith, st.size, length-reverse_aux ((a, s) ∷ (b, r) ∷ xs) []);
      },
      λ p o.
          let (p_a, p_out) = holds-behind p a s ((b, r) ∷ xs) o in
          same p p_a (λ h. holds-apart end p ((b, r) ∷ xs) end_in p_out (sym h))
            (not_part p rs ((b, r) ∷ xs) part p_out),
    )
