-- ===== src/Programminglab/Queue.antt =====
-- The operations of cprogramminglab-handout/queue.c on a heap of list elements. The queue struct is
-- handed through by value, and a null pointer to it is `none`. An element keeps its string, which
-- it alone points to. `elem` and `copied` are what the two calls of `malloc` do: the address of
-- the element, or null, and whether there was room for the string. The walks run on fuel.
pub mod Chain
pub mod Insert
pub mod Refused
pub mod Remove
pub mod Reverse
mod Split
mod Tests
use introduction_to_computer.Common.{
  ℤ, pos, to_int, ℕ, zero, suc, ◌+◌, ◌-◌, ◌%◌, ◌^◌, Bool, true, false, List, [], ◌∷◌, Option, some,
  none, ◌==◌, if◌then◌else◌, Text, take, endless, Code, give, follow, load, store, fill, release,
  ◌>>=◌, ◌>>◌, Memory, ended, Run,
}

pub record Element : Type 0 where
  pub value : Text
  pub next : ℕ

abbrev pub element : Text → ℕ → Element
element s next = record { value = s; next = next }

pub record Queue : Type 0 where
  pub head : ℕ
  pub tail : ℕ
  pub size : ℕ

-- `q_new`, with whether `malloc` found room.
pub q_new : Bool → Option Queue
q_new true = some (record { head = 0; tail = 0; size = 0 })
q_new false = none

unfoldable pub free_until : ℕ → (head tail : ℕ) → Code Element (Unit {0})
free_until zero head tail = λ m. endless
free_until (suc fuel) head tail =
    if head == tail
    then release head
    else do temp ← load head; release head; free_until fuel temp.next tail

unfoldable pub q_free : ℕ → Option Queue → Code Element (Unit {0})
unfolding free_until
q_free fuel none = give tt
q_free fuel (some q) = if q.head == 0 then give tt else free_until fuel q.head q.tail

-- The new element is made, or given back if there is no room for its string.
unfoldable pub insert_with :
    ℕ → Bool → Queue → Code Element (Queue × Bool) → Code Element (Queue × Bool)
insert_with elem copied q link =
    if elem == 0
    then give (q, false)
    else if copied
    then link
    else do fill elem (element [] 0); release elem; give (q, false)

unfoldable pub link_head : ℕ → Queue → Text → Code Element (Queue × Bool)
link_head elem q s = do
  fill elem (element s q.head)
  give
      (record { head = elem; tail = if q.tail == 0 then elem else q.tail; size = q.size + 1 }, true)

unfoldable pub q_insert_head : ℕ → Bool → Option Queue → Text → Code Element (Option Queue × Bool)
unfolding insert_with link_head
q_insert_head elem copied none s = give (none, false)
q_insert_head elem copied (some q) s = do
  (q', done) ← insert_with elem copied q (link_head elem q s)
  give (some q', done)

unfoldable pub link_tail : ℕ → Queue → Text → Code Element (Queue × Bool)
link_tail elem q s = do
  fill elem (element s 0)
  if q.size + 1 == 1
      then give (record { head = elem; tail = elem; size = q.size + 1 }, true)
      else do
        last ← load q.tail
        store q.tail (record last { next = elem })
        give (record { head = q.head; tail = elem; size = q.size + 1 }, true)

unfoldable pub q_insert_tail : ℕ → Bool → Option Queue → Text → Code Element (Option Queue × Bool)
unfolding insert_with link_tail
q_insert_tail elem copied none s = give (none, false)
q_insert_tail elem copied (some q) s = do
  (q', done) ← insert_with elem copied q (link_tail elem q s)
  give (some q', done)

-- What is copied to `sp`: `bufsize - 1` is computed in `size_t`.
abbrev pub copied_string : (bufsize : ℕ) → Text → Text
copied_string bufsize s = take ((bufsize + 2 ^ 64 - 1) % 2 ^ 64) s

-- The result and the copied string, if `sp` is not null.
unfoldable pub q_remove_head :
    Option Queue → (sp : Bool) → (bufsize : ℕ) → Code Element (Option Queue × Bool × Option Text)
q_remove_head none sp bufsize = give (none, false, none)
q_remove_head (some q) sp bufsize = if q.head == 0 then give (some q, false, none) else do
  head ← load q.head
  let q' : Queue = record q { head = head.next; size = q.size - 1 }
  let copy : Option Text = if sp then some (copied_string bufsize head.value) else none
  release q.head
  give (some q', true, copy)

pub q_size : Option Queue → ℤ
q_size none = pos 0
q_size (some q) = to_int q.size

-- `while (temp != end)`, and the last value of `head`.
unfoldable pub reverse_loop : ℕ → (temp end : ℕ) → Code Element ℕ
reverse_loop zero temp end = λ m. endless
reverse_loop (suc fuel) temp end = if temp == end then give temp else do
  e ← load end
  store end (record e { next = temp })
  t ← load temp
  store temp (record t { next = e.next })
  reverse_loop fuel t.next end

-- The first element is placed at the end, and the others behind the old tail.
unfoldable pub reverse_links : ℕ → Queue → Code Element Queue
unfolding reverse_loop
reverse_links fuel q = do
  e ← load q.tail
  store q.tail (record e { next = q.head })
  t ← load q.head
  store q.head (record t { next = 0 })
  head ← reverse_loop fuel t.next q.tail
  give (record q { head = head; tail = q.head })

unfoldable pub q_reverse : ℕ → Option Queue → Code Element (Option Queue)
q_reverse fuel none = give none
q_reverse fuel (some q) =
    if q.head == 0
    then give (some q)
    else if q.size == 1
    then give (some q)
    else do q' ← reverse_links fuel q; give (some q')
