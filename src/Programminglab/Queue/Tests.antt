-- ===== src/Programminglab/Queue/Tests.antt =====
-- Runs of the model of cprogramminglab-handout/queue.c, and its theorems at concrete inputs.
use introduction_to_computer.Common.{
  ℕ, ◌≡◌, refl, true, false, [], ◌∷◌, some, none, arith, ◌==◌, if◌then◌else◌, Memory, ended, fault,
  reverse,
}
use introduction_to_computer.Programminglab.Queue.{
  Element, element, Queue, q_insert_head, q_insert_tail, q_remove_head, q_reverse,
}
use introduction_to_computer.Programminglab.Queue.Chain.{Items, IsQueue, holds}
use introduction_to_computer.Programminglab.Queue.Refused.{q_insert_tail-fault}
use introduction_to_computer.Programminglab.Queue.Reverse.{q_reverse_lem}

abbrev items : Items
items = (10, b'a' ∷ []) ∷ (20, b'b' ∷ b'c' ∷ []) ∷ (30, b'd' ∷ []) ∷ []

abbrev memory : Memory Element
memory p =
    if p == 10
    then some (element (b'a' ∷ []) 20)
    else if p == 20
    then some (element (b'b' ∷ b'c' ∷ []) 30)
    else if p == 30
    then some (element (b'd' ∷ []) 0)
    else none

abbrev queue : Queue
queue = record { head = 10; tail = 30; size = 3 }

items-IsQueue : IsQueue memory queue items
items-IsQueue = record {
  chain = (refl, (λ e. cc e), refl, (refl, (λ e. cc e), refl, (refl, (λ e. cc e), refl, tt)));
  head = refl;
  tail = λ _. refl;
  size = refl;
}

abbrev single : Memory Element
single p = if p == 10 then some (element (b'a' ∷ []) 0) else none

abbrev single_queue : Queue
single_queue = record { head = 10; tail = 10; size = 1 }

single-IsQueue : IsQueue single single_queue ((10, b'a' ∷ []) ∷ [])
single-IsQueue = record {
  chain = (refl, (λ e. cc e), refl, tt);
  head = refl;
  tail = λ _. refl;
  size = refl;
}

q_insert_tail-fault_example :
    (q1 : Queue) × (q2 : Queue) × (m1 : Memory Element) × (m2 : Memory Element) × (q_remove_head
        (some single_queue)
        false
        0
        single
      ≡ ended (some q1, true, none) m1)
    × (q_insert_head 20 true (some q1) (b'b' ∷ []) m1 ≡ ended (some q2, true) m2)
    × (q_insert_tail 30 true (some q2) (b'c' ∷ []) m2 ≡ fault)
q_insert_tail-fault_example =
    q_insert_tail-fault single single_queue 10 (b'a' ∷ []) 20 30 (b'b' ∷ []) (b'c' ∷ []) 0
      single-IsQueue ((λ e. cc e), (λ e. cc e)) ((λ e. cc e), (λ e. cc e))

q_reverse_lem_example :
    (q' : Queue) × (m' : Memory Element) × (q_reverse 3 (some queue) memory ≡ ended (some q') m')
    × IsQueue m' q' (reverse items)
    × ((p : ℕ) → holds p items ≡ false → m' p ≡ memory p)
q_reverse_lem_example = q_reverse_lem 3 memory queue items items-IsQueue (omega arith)
