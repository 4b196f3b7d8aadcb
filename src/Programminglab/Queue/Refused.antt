-- ===== src/Programminglab/Queue/Refused.antt =====
-- q_insert_head and q_insert_tail of cprogramminglab-handout/queue.c where `malloc` fails and where
-- the tail pointer is stale.
use introduction_to_computer.Common.{
  ℕ, ◌+◌, ◌≡◌, ◌≢◌, refl, sym, Bool, true, false, [], ◌∷◌, some, none, Text, arith, update_self,
  update_other, ==-apart, Memory, update, ◌∙◌, inl, inr, ended, fault, ◌⊎◌, ◌-◌, load-ended,
  load-fault, release-ended, fill,
}
use introduction_to_computer.Programminglab.Queue.{
  q_remove_head, Element, element, Queue, q_insert_head, q_insert_tail, insert_with, link_head,
  link_tail,
}
use introduction_to_computer.Programminglab.Queue.Chain.{IsQueue}

-- When one of the two calls of `malloc` finds no room, both ways to insert a string report it and
-- leave the queue and the whole memory as they were.
pub q_insert_refused :
    (m : Memory Element) (q : Queue) (elem : ℕ) (copied : Bool) (s : Text)
    → (elem ≡ 0) ⊎ ((elem ≢ 0) × (m elem ≡ none) × (copied ≡ false))
    → (m' : Memory Element) × (q_insert_head elem copied (some q) s m ≡ ended (some q, false) m')
      × (q_insert_tail elem copied (some q) s m ≡ ended (some q, false) m')
      × ((p : ℕ) → m' p ≡ m p)
unfolding q_insert_head q_insert_tail insert_with fill
q_insert_refused m q elem copied s (inl e) = (m, rw e, rw e, λ p. refl)
q_insert_refused m q elem copied s (inr (nz, free, e)) =
    let z = ==-apart elem 0 nz in
    let m1 : Memory Element = update m elem (some (element [] 0)) in
    let freed = release-ended m1 elem (element [] 0) (update_self m elem _) nz in
    (update m1 elem none, rw (z, e, freed), rw (z, e, freed), λ p. ground (arith, free))

-- A queue of one string loses it to `q_remove_head` and gets another one from `q_insert_head`: when
-- `malloc` does not reuse the freed element at once, the next `q_insert_tail` writes to it.
pub q_insert_tail-fault :
    (m : Memory Element) (q : Queue) (a : ℕ) (s : Text) (first second : ℕ) (t u : Text)
    (bufsize : ℕ)
    → IsQueue m q ((a, s) ∷ [])
    → (first ≢ 0) × (first ≢ a)
    → (second ≢ 0) × (second ≢ a)
    → (q1 : Queue) × (q2 : Queue) × (m1 : Memory Element) × (m2 : Memory Element) × (q_remove_head
          (some q)
          false
          bufsize
          m
        ≡ ended (some q1, true, none) m1)
      × (q_insert_head first true (some q1) t m1 ≡ ended (some q2, true) m2)
      × (q_insert_tail second true (some q2) u m2 ≡ fault)
unfolding q_insert_head q_insert_tail insert_with link_head link_tail fill q_remove_head
q_insert_tail-fault m q a s first second t u bufsize st (nz1, ne1) (nz2, ne2) =
    let (e, nz, new, c) = st.chain in
    let z = ==-apart a 0 nz in
    let tail : q.tail ≡ a = st.tail (λ h. nz (sym st.head ∙ h)) in
    let q1 : Queue = record q { head = 0; size = q.size - 1 } in
    let q2 : Queue = record { head = first; tail = a; size = q.size - 1 + 1 } in
    let m1 : Memory Element = update m a none in
    let m2 : Memory Element = update m1 first (some (element t 0)) in
    let m3 : Memory Element = update m2 second (some (element u 0)) in
    let gone : m3 a ≡ none =
      update_other m2 second a _ (λ h. ne2 (sym h))
      ∙ update_other m1 first a _ (λ h. ne1 (sym h))
      ∙ update_self m a none in
    (
      q1,
      q2,
      m1,
      m2,
      rw (st.head, z, load-ended m a _ e nz, release-ended m a _ e nz),
      rw (==-apart first 0 nz1, tail, z),
      rw (==-apart second 0 nz2, st.size, load-fault m3 a gone),
    )
