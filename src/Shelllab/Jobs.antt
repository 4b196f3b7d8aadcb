-- ===== src/Shelllab/Jobs.antt =====
-- The job list of shelllab/tsh_helper.c. The static variables are a record, every routine takes
-- it, and a routine that ends the process (`abort`, a failed `sio_assert`, `raise(SIGTRAP)`) has
-- the outcome `stop`. Messages on stderr are left out, and `realloc` for the command line succeeds.
pub mod Add
pub mod Delete
pub mod Invariant
pub mod States
pub mod Table
mod Tests
use introduction_to_computer.Common.{
  ℕ, zero, suc, ◌+◌, ◌-◌, List, [], ◌∷◌, Option, none, some, Bool, true, false, not, ◌&&◌, ◌||◌,
  ltb, leb, ◌==◌, if◌then◌else◌, get_or, set,
}
-- A `pid_t` or `jid_t` that a caller may give is a `ℤ`.
pub use introduction_to_computer.Common.{ℤ, pos, negsuc}

abbrev pub max_jobs : ℕ
max_jobs = 64

pub data JobState : Type 0 where
  undef fg bg st : JobState

abbrev pub is_undef : JobState → Bool
is_undef undef = true
is_undef _ = false

abbrev pub is_fg : JobState → Bool
is_fg fg = true
is_fg _ = false

pub record Job : Type 0 where
  pub pid : ℕ
  pub jid : ℕ
  pub state : JobState
  pub cmdline : List ℕ

-- Which of the three signals that matter are blocked.
pub record SigSet : Type 0 where
  pub sigchld : Bool
  pub sigint : Bool
  pub sigtstp : Bool

-- The entry of job `jid` stands at the index `jid - 1`.
pub record Jobs : Type 0 where
  pub init : Bool
  pub currmask : SigSet
  pub job_list : List Job
  pub nextjid : ℕ

pub data Outcome {ℓ} (A : Type ℓ) : Type ℓ where
  ok : A → Outcome A
  stop : Outcome A

infixl 5 ◌>>=◌ ◌>>◌
abbrev pub ◌>>=◌ {ℓ κ} : {A : Type ℓ} {B : Type κ} → Outcome A → (A → Outcome B) → Outcome B
ok a >>= f = f a
stop >>= f = stop

abbrev pub ◌>>◌ {ℓ} : {B : Type ℓ} → Outcome (Unit {0}) → Outcome B → Outcome B
m >> k = m >>= λ _. k

-- `if (!b) abort();`
abbrev pub require : Bool → Outcome (Unit {0})
require true = ok tt
require false = stop

unfoldable pub check_blocked : Jobs → Outcome (Unit {0})
check_blocked s =
    require (s.init && (s.currmask.sigchld && (s.currmask.sigint && s.currmask.sigtstp)))

abbrev pub cleared : Job → Job
cleared job = record job { pid = 0; jid = 0; state = undef }

abbrev pub no_job : Job
no_job = record { pid = 0; jid = 0; state = undef; cmdline = [] }

-- `1 <= jid <= MAXJOBS`
abbrev pub in_range : ℕ → Bool
in_range jid = leb 1 jid && leb jid max_jobs

unfoldable pub get_job : Jobs → ℕ → Outcome Job
get_job s jid = do require (in_range jid); ok (get_or s.job_list (jid - 1) no_job)

-- A write through the pointer that `get_job` returns.
unfoldable pub put_job : Jobs → ℕ → Job → Jobs
put_job s jid job = record s { job_list = set s.job_list (jid - 1) job }

unfoldable pub clear_jobs : ℕ → List Job
clear_jobs zero = []
clear_jobs (suc n) = no_job ∷ clear_jobs n

unfoldable pub init_job_list : Jobs → Jobs
unfolding clear_jobs
init_job_list s = record s { init = true; job_list = clear_jobs max_jobs; nextjid = 1 }

unfoldable pub destroy_job_list : Jobs → Jobs
unfolding clear_jobs
destroy_job_list s = record s { job_list = clear_jobs max_jobs; nextjid = 1 }

abbrev pub exists_at : Jobs → ℕ → Bool
exists_at s jid = in_range jid && not (is_undef (get_or s.job_list (jid - 1) no_job).state)

unfoldable pub job_exists : Jobs → ℤ → Outcome Bool
unfolding check_blocked
job_exists s (pos jid) = do check_blocked s; ok (exists_at s jid)
job_exists s (negsuc n) = do check_blocked s; ok false

-- The loop of `maxjid`, down from `jid`.
unfoldable pub maxjid_loop : Jobs → ℕ → ℕ
maxjid_loop s zero = 0
maxjid_loop s (suc jid) = if exists_at s (suc jid) then suc jid else maxjid_loop s jid

unfoldable pub maxjid : Jobs → Outcome ℕ
unfolding check_blocked maxjid_loop
maxjid s = do check_blocked s; ok (maxjid_loop s max_jobs)

-- The loop of `fg_job`, at the entry of job `jid`.
unfoldable pub find_fg : ℕ → List Job → ℕ
find_fg jid [] = 0
find_fg jid (job ∷ jobs) = if is_fg job.state then jid else find_fg (jid + 1) jobs

unfoldable pub fg_job : Jobs → Outcome ℕ
unfolding check_blocked find_fg
fg_job s = do check_blocked s; ok (find_fg 1 s.job_list)

unfoldable pub find_pid : ℕ → ℕ → List Job → ℕ
find_pid pid jid [] = 0
find_pid pid jid (job ∷ jobs) =
    if not (is_undef job.state) && job.pid == pid then jid else find_pid pid (jid + 1) jobs

unfoldable pub job_from_pid : Jobs → ℤ → Outcome ℕ
unfolding check_blocked find_pid
job_from_pid s (pos pid) = do
  check_blocked s
  ok (if leb 1 pid then find_pid pid 1 s.job_list else 0)
job_from_pid s (negsuc n) = do check_blocked s; ok 0

-- The state is one that a job can be given: not `UNDEF`, and `FG` only if no job is there.
abbrev pub state_allowed : Jobs → JobState → Bool
state_allowed s state = not (is_undef state) && (not (is_fg state) || find_fg 1 s.job_list == 0)

unfoldable pub require_valid_state : Jobs → JobState → Outcome (Unit {0})
unfolding fg_job
require_valid_state s undef = stop
require_valid_state s fg = do jid ← fg_job s; require (jid == 0)
require_valid_state s bg = ok tt
require_valid_state s st = ok tt

unfoldable pub require_job_exists : Jobs → ℤ → Outcome (Unit {0})
unfolding job_exists
require_job_exists s jid = do there ← job_exists s jid; require there

-- The part of `add_job` behind its checks.
unfoldable pub insert_job : Jobs → ℕ → JobState → List ℕ → Outcome (Jobs × ℕ)
unfolding get_job put_job
insert_job s pid state cmdline =
    if ltb 0 s.nextjid
    then if ltb max_jobs s.nextjid then ok (s, 0) else (do
      job ← get_job s s.nextjid
      require (is_undef job.state)
      let job' : Job = record { pid = pid; jid = s.nextjid; state = state; cmdline = cmdline }
      ok (record (put_job s s.nextjid job') { nextjid = s.nextjid + 1 }, s.nextjid))
    else stop

-- `cmdline` is `none` for a null pointer.
unfoldable pub add_job : Jobs → ℤ → JobState → Option (List ℕ) → Outcome (Jobs × ℕ)
unfolding check_blocked require_valid_state insert_job
add_job s (negsuc n) state cmdline = stop
add_job s (pos pid) state none = stop
add_job s (pos pid) state (some cmdline) = do
  check_blocked s
  require_valid_state s state
  require (ltb 0 pid)
  insert_job s pid state cmdline

unfoldable pub delete_job : Jobs → ℤ → Outcome (Jobs × Bool)
unfolding check_blocked job_exists get_job put_job maxjid
delete_job s (negsuc n) = do check_blocked s; ok (s, false)
delete_job s (pos jid) = do
  check_blocked s
  there ← job_exists s (pos jid)
  if there
      then (do
        job ← get_job s jid
        let s' = put_job s jid (cleared job)
        last ← maxjid s'
        ok (record s' { nextjid = last + 1 }, true))
      else ok (s, false)

unfoldable pub job_get_state : Jobs → ℤ → Outcome JobState
unfolding check_blocked require_job_exists get_job
job_get_state s (negsuc n) = stop
job_get_state s (pos jid) = do
  check_blocked s
  require_job_exists s (pos jid)
  job ← get_job s jid
  ok job.state

unfoldable pub job_set_state : Jobs → ℤ → JobState → Outcome Jobs
unfolding check_blocked require_job_exists require_valid_state get_job put_job
job_set_state s (negsuc n) state = stop
job_set_state s (pos jid) state = do
  check_blocked s
  require_job_exists s (pos jid)
  require_valid_state s state
  job ← get_job s jid
  ok (put_job s jid (record job { state = state }))

unfoldable pub job_get_pid : Jobs → ℤ → Outcome ℕ
unfolding check_blocked require_job_exists get_job
job_get_pid s (negsuc n) = stop
job_get_pid s (pos jid) = do
  check_blocked s
  require_job_exists s (pos jid)
  job ← get_job s jid
  ok job.pid

unfoldable pub job_get_cmdline : Jobs → ℤ → Outcome (List ℕ)
unfolding check_blocked require_job_exists get_job
job_get_cmdline s (negsuc n) = stop
job_get_cmdline s (pos jid) = do
  check_blocked s
  require_job_exists s (pos jid)
  job ← get_job s jid
  ok job.cmdline

-- `write` says whether `sio_dprintf` succeeds on the line of a job; the lines written are returned.
unfoldable pub list_loop : (write : Job → Bool) → List Job → List Job × Bool
list_loop write [] = ([], true)
list_loop write (job ∷ jobs) =
    let (lines, done) = list_loop write jobs in
    if is_undef job.state
    then (lines, done)
    else if write job
    then (job ∷ lines, done)
    else ([], false)

unfoldable pub list_jobs : (write : Job → Bool) → Jobs → ℤ → Outcome (List Job × Bool)
unfolding check_blocked list_loop
list_jobs write s (negsuc n) = stop
list_jobs write s (pos output_fd) = do check_blocked s; ok (list_loop write s.job_list)
