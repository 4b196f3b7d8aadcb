-- ===== src/Proxylab/Threads.antt =====
-- The threads of proxylab/proxy.c, which all run `doit`, and the lock that they share: a step
-- relation over the stages of the threads. What the system calls return decides between the steps
-- of a stage. `pthread_mutex_init`, which every thread calls, leaves the lock unlocked, as the
-- documentation says of it.
pub mod Exclusion
pub mod Spinning
mod Tests
use introduction_to_computer.Common.{ℕ, ◌≡◌, Bool, true, false, ◌==◌, if◌then◌else◌}

-- Where in `doit` a thread stands; a `spinning` one is in the loop of `add_to_cache` for good.
pub data Stage : Type 0 where
  created : Stage
  locking : Stage
  searching : Stage
  replying : Stage
  fetching : Stage
  relocking : Stage
  adding : Stage
  spinning : Stage
  finished : Stage

-- Between `pthread_mutex_lock` and `pthread_mutex_unlock`.
abbrev pub inside : Stage → Bool
inside searching = true
inside adding = true
inside spinning = true
inside _ = false

-- Steps that leave the lock alone: `pthread_mutex_init` fails, the cached response is written, the
-- server cannot be reached, its response is too long, or it is received, or the loop that makes
-- room in the cache does not end.
pub data Passes : Stage → Stage → Type 0 where
  init_fails : Passes created finished
  reply : Passes replying finished
  no_server : Passes fetching finished
  too_long : Passes fetching finished
  received : Passes fetching relocking
  makes_no_room : Passes adding spinning

-- The two calls of `pthread_mutex_lock` that return.
pub data Takes : Stage → Stage → Type 0 where
  take_to_search : Takes locking searching
  take_to_add : Takes relocking adding

-- The three calls of `pthread_mutex_unlock`: the URI is found, is not found, or has been added.
pub data Leaves : Stage → Stage → Type 0 where
  hit : Leaves searching replying
  miss : Leaves searching fetching
  added : Leaves adding finished

pub record World : Type 0 where
  pub stage : ℕ → Stage
  pub locked : Bool

-- The thread `t` goes to the stage `s`.
abbrev pub move : ℕ → Stage → (ℕ → Stage) → ℕ → Stage
move t s stage u = if u == t then s else stage u

pub data Step : World → World → Type 0 where
  initialize :
      (w : World) (t : ℕ)
      → w.stage t ≡ created
      → Step w (record { stage = move t locking w.stage; locked = false })
  pass :
      (w : World) (t : ℕ) {s : Stage}
      → Passes (w.stage t) s
      → Step w (record { stage = move t s w.stage; locked = w.locked })
  take :
      (w : World) (t : ℕ) {s : Stage}
      → w.locked ≡ false
      → Takes (w.stage t) s
      → Step w (record { stage = move t s w.stage; locked = true })
  leave :
      (w : World) (t : ℕ) {s : Stage}
      → Leaves (w.stage t) s
      → Step w (record { stage = move t s w.stage; locked = false })

pub data Reachable (w : World) : World → Type 0 where
  here : Reachable w w
  later : {v u : World} → Reachable w v → Step v u → Reachable w u

-- No thread has begun.
abbrev pub start : World
start = record { stage = λ t. created; locked = false }
