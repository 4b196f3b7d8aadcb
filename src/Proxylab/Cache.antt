-- ===== src/Proxylab/Cache.antt =====
-- The cache of proxylab/cache.c: a doubly linked list of nodes on a heap. The cache struct is
-- handed through by value. Every walk along the list runs on fuel.
pub mod Add
pub mod Free
pub mod Linked
pub mod Remove
pub mod Search
mod Tests
pub mod Unlink
use introduction_to_computer.Common.{
  ℕ, zero, suc, ◌+◌, ◌-◌, ◌*◌, ◌%◌, ◌^◌, Bool, true, false, not, List, [], ◌∷◌, some, none, ltb,
  ◌==◌, if◌then◌else◌, Text, same_text, take, length, Memory, Run, ended, endless, Code, give,
  follow, load, store, fill, release, ◌>>=◌, ◌>>◌,
}

abbrev pub max_cache_size : ℕ
max_cache_size = 1024 * 1024

abbrev pub max_object_size : ℕ
max_object_size = 100 * 1024

-- `MIN`
abbrev pub min_age : ℕ
min_age = 100000000

pub record Node : Type 0 where
  pub prev : ℕ
  pub next : ℕ
  pub uri : Text
  pub obj : Text
  pub age : ℕ
  pub size : ℕ

pub record Cache : Type 0 where
  pub head : ℕ
  pub slots : ℕ

-- Arithmetic of `size_t`.
abbrev pub size_add : ℕ → ℕ → ℕ
size_add a b = (a + b) % 2 ^ 64

abbrev pub size_sub : ℕ → ℕ → ℕ
size_sub a b = (a + 2 ^ 64 - b) % 2 ^ 64

unfoldable pub init_cache : Cache
init_cache = record { head = 0; slots = max_cache_size }

unfoldable pub search_loop : ℕ → ℕ → Text → Code Node ℕ
search_loop zero start req_uri = λ m. endless
search_loop (suc fuel) start req_uri = if start == 0 then give 0 else do
  n ← load start
  if same_text n.uri req_uri then give start else search_loop fuel n.next req_uri

unfoldable pub search_cache : ℕ → Cache → Text → Code Node ℕ
unfolding search_loop
search_cache fuel cache req_uri = search_loop fuel cache.head req_uri

-- The length and what is copied to `contents`.
unfoldable pub read_response : ℕ → ℕ → Code Node (ℕ × Text)
read_response curr time = do
  n ← load curr
  store curr (record n { age = time })
  give (n.size, take n.size n.obj)

unfoldable pub evict_loop : ℕ → (start currmin evict : ℕ) → Code Node ℕ
evict_loop zero start currmin evict = λ m. endless
evict_loop (suc fuel) start currmin evict = if start == 0 then give evict else do
  n ← load start
  let less = ltb n.age currmin
  evict_loop fuel n.next (if less then n.age else currmin) (if less then start else evict)

unfoldable pub evict_age : ℕ → Cache → Code Node ℕ
unfolding evict_loop
evict_age fuel cache = evict_loop fuel cache.head min_age 0

-- `p->prev = q` and `p->next = q`
unfoldable pub set_prev : ℕ → ℕ → Code Node (Unit {0})
set_prev p q = do n ← load p; store p (record n { prev = q })

unfoldable pub set_next : ℕ → ℕ → Code Node (Unit {0})
set_next p q = do n ← load p; store p (record n { next = q })

-- The three cases of `remove_from_cache`, for the node `n` at `start`: the head of the cache after.
unfoldable pub unlink : ℕ → ℕ → Node → Code Node ℕ
unfolding set_prev set_next
unlink head start n =
    if n.prev == 0
    then (if n.next == 0 then give n.next else do set_prev n.next 0; set_next start 0; give n.next)
    else if n.next == 0
    then (do set_next n.prev 0; set_prev start 0; give head)
    else do
      set_next n.prev n.next
      set_prev n.next n.prev
      set_prev start 0
      set_next start 0
      give head

unfoldable pub remove_loop : ℕ → Cache → (start remove : ℕ) → Code Node Cache
unfolding unlink
remove_loop zero cache start remove = λ m. endless
remove_loop (suc fuel) cache start remove = if start == 0 then give cache else do
  n ← load start
  if start == remove
      then (do
        head ← unlink cache.head start n
        release start
        give (record { head = head; slots = size_add cache.slots n.size }))
      else remove_loop fuel cache n.next remove

unfoldable pub remove_from_cache : ℕ → Cache → ℕ → Code Node Cache
unfolding remove_loop
remove_from_cache fuel cache remove = remove_loop fuel cache cache.head remove

-- `while (size > cache->slots)`, each walk of a round with fuel `walk`.
unfoldable pub make_room : (walk fuel : ℕ) → ℕ → Cache → Code Node Cache
unfolding evict_age remove_from_cache
make_room walk zero size cache = λ m. endless
make_room walk (suc fuel) size cache =
    if ltb cache.slots size
    then (do
      rem_block ← evict_age walk cache
      cache' ← if rem_block == 0 then give cache else remove_from_cache walk cache rem_block
      make_room walk fuel size cache')
    else give cache

-- The part behind the loop. `elem` is what `Malloc` returns, which ends the process on failure.
unfoldable pub insert_block :
    (elem : ℕ) → Cache → (req_uri response : Text) → (size time : ℕ) → Code Node Cache
unfolding set_prev
insert_block elem cache req_uri response size time = do
  fill elem (record {
    prev = 0;
    next = cache.head;
    uri = req_uri;
    obj = take size response;
    age = time;
    size = size;
  })
  if cache.head == 0 then give tt else set_prev cache.head elem
  give (record { head = elem; slots = size_sub cache.slots size })

unfoldable pub add_to_cache :
    (fuel elem : ℕ) → Cache → (req_uri response : Text) → (size time : ℕ) → Code Node Cache
unfolding make_room insert_block
add_to_cache fuel elem cache req_uri response size time = do
  cache' ← make_room fuel fuel size cache
  insert_block elem cache' req_uri response size time

unfoldable pub free_loop : ℕ → ℕ → Code Node (Unit {0})
free_loop zero start = λ m. endless
free_loop (suc fuel) start =
    if start == 0 then give tt else do n ← load start; release start; free_loop fuel n.next

unfoldable pub free_cache : ℕ → Cache → Code Node (Unit {0})
unfolding free_loop
free_cache fuel cache = free_loop fuel cache.head
