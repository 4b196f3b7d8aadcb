-- ===== src/Shelllab/Tsh.antt =====
-- The parent side of shelllab/tsh.c: the signal handlers, `bg` and `fg`, and `eval`. What a
-- process group is sent and what is printed are lists, newest first. `fork`, `waitpid`, `sscanf`
-- and the arrival of signals are arguments; the child side of `eval` is left out.
pub mod Builtins
pub mod Line
pub mod Reachable
pub mod Reap
pub mod Returns
pub mod Signals
mod Tests
pub mod Waiting
use introduction_to_computer.Common.{
  ℕ, List, [], ◌∷◌, Option, none, some, Bool, true, false, ltb, ◌==◌, if◌then◌else◌,
}
use introduction_to_computer.Shelllab.Jobs.{
  JobState, fg, bg, st, SigSet, Jobs, ℤ, pos, Outcome, ok, ◌>>=◌, fg_job, job_exists, job_from_pid,
  add_job, delete_job, job_set_state, job_get_pid, job_get_cmdline, list_jobs,
}

pub data Signal : Type 0 where
  sigint sigtstp sigcont : Signal

pub data Message : Type 0 where
  terminated : (jid pid sig : ℕ) → Message
  stopped_by : (jid pid sig : ℕ) → Message
  started : (jid : ℕ) → ℤ → List ℕ → Message
  no_such_job : ℤ → Message
  bad_argument : Bool → Message
  missing_argument : Bool → Message
  restarted : ℤ → ℤ → List ℕ → Message

pub record Shell : Type 0 where
  pub jobs : Jobs
  pub sent : List (ℤ × Signal)
  pub printed : List Message

abbrev pub with_jobs : Shell → Jobs → Shell
with_jobs sh s = record sh { jobs = s }

abbrev pub print : Message → Shell → Shell
print msg sh = record sh { printed = msg ∷ sh.printed }

-- `kill(-pid, sig)`
abbrev pub kill_group : ℤ → Signal → Shell → Shell
kill_group pid sig sh = record sh { sent = (pid, sig) ∷ sh.sent }

abbrev pub set_mask : SigSet → Shell → Shell
set_mask m sh = record sh { jobs = record (sh.jobs) { currmask = m } }

-- `sigprocmask(SIG_BLOCK, &mask, &prev)` with the mask that the code always builds.
abbrev pub all_blocked : SigSet
all_blocked = record { sigchld = true; sigint = true; sigtstp = true }

-- What `waitpid` reports of a child.
pub data Status : Type 0 where
  exited : Status
  signaled : ℕ → Status
  stopped : ℕ → Status

-- The body of the loop of `sigchld_handler`.
unfoldable pub reap : Shell → ℕ → Status → Outcome Shell
reap sh pid exited = do
  jid ← job_from_pid sh.jobs (pos pid)
  (s, done) ← delete_job sh.jobs (pos jid)
  ok (with_jobs sh s)
reap sh pid (signaled sig) = do
  jid ← job_from_pid sh.jobs (pos pid)
  (s, done) ← delete_job sh.jobs (pos jid)
  ok (with_jobs (print (terminated jid pid sig) sh) s)
reap sh pid (stopped sig) = do
  jid ← job_from_pid sh.jobs (pos pid)
  s ← job_set_state sh.jobs (pos jid) st
  ok (print (stopped_by jid pid sig) (with_jobs sh s))

unfoldable pub reap_all : Shell → List (ℕ × Status) → Outcome Shell
reap_all sh [] = ok sh
reap_all sh ((pid, status) ∷ events) = do sh' ← reap sh pid status; reap_all sh' events

-- `events` is what `waitpid` returns until there is nothing more to report.
unfoldable pub sigchld_handler : Shell → List (ℕ × Status) → Outcome Shell
sigchld_handler sh events = do
  sh' ← reap_all (set_mask all_blocked sh) events
  ok (set_mask sh.jobs.currmask sh')

-- What `sigint_handler` and `sigtstp_handler` do with their signal.
unfoldable pub forward : Signal → Shell → Outcome Shell
forward sig sh = do
  let inside = set_mask all_blocked sh
  jid ← fg_job inside.jobs
  if ltb 0 jid
      then (do
        pid ← job_get_pid inside.jobs (pos jid)
        ok (if pid == 0 then sh else kill_group (pos pid) sig sh))
      else ok sh

unfoldable pub sigint_handler : Shell → Outcome Shell
unfolding forward
sigint_handler sh = forward sigint sh

unfoldable pub sigtstp_handler : Shell → Outcome Shell
unfolding forward
sigtstp_handler sh = forward sigtstp sh

-- A signal that reaches the shell while it waits.
pub data Delivery : Type 0 where
  child : List (ℕ × Status) → Delivery
  interrupt suspend : Delivery

unfoldable pub deliver : Shell → Delivery → Outcome Shell
deliver sh (child events) = sigchld_handler sh events
deliver sh interrupt = sigint_handler sh
deliver sh suspend = sigtstp_handler sh

-- `waiting` is a shell that needs another signal.
pub data Wait : Type 0 where
  done : Shell → Wait
  waiting : Shell → Wait

-- `while (fg_job() > 0) sigsuspend(&prev);` over the signals that arrive.
unfoldable pub wait_fg : SigSet → List Delivery → Shell → Outcome Wait
wait_fg prev [] sh = do jid ← fg_job sh.jobs; ok (if ltb 0 jid then waiting sh else done sh)
wait_fg prev (d ∷ ds) sh = do
  jid ← fg_job sh.jobs
  if ltb 0 jid
      then (do sh' ← deliver (set_mask prev sh) d; wait_fg prev ds (set_mask sh.jobs.currmask sh'))
      else ok (done sh)

-- What `sscanf` makes of a number: the number, 0 for a mismatch, or -1 at the end of the text.
pub data Scan : Type 0 where
  scanned : ℤ → Scan
  mismatch : Scan
  eof : Scan

abbrev pub scan_or : ℤ → Scan → ℤ
scan_or old (scanned n) = n
scan_or old _ = old

abbrev pub is_mismatch : Scan → Bool
is_mismatch mismatch = true
is_mismatch _ = false

-- The argument of `bg` and `fg`: a job number behind a percent sign, or a pid.
pub data Target : Type 0 where
  job_id : Scan → Target
  process_id : Scan → Target

-- The part of `builtin_back_fore` behind its checks.
unfoldable pub restart : SigSet → List Delivery → Bool → ℤ → ℤ → Shell → Outcome Wait
restart prev ds true jid pid sh = do
  line ← job_get_cmdline sh.jobs jid
  let sh' = kill_group pid sigcont (print (restarted jid pid line) sh)
  again ← job_from_pid sh'.jobs pid
  s ← job_set_state sh'.jobs (pos again) bg
  ok (done (with_jobs sh' s))
restart prev ds false jid pid sh = do
  let sh' = kill_group pid sigcont sh
  again ← job_from_pid sh'.jobs pid
  s ← job_set_state sh'.jobs (pos again) fg
  wait_fg prev ds (with_jobs sh' s)

-- `jid0` and `pid0` are the values of the variables before they are set. A refused command gives
-- the old mask back.
unfoldable pub builtin_back_fore :
    (jid0 pid0 : ℤ) → SigSet → List Delivery → Bool → Option Target → Shell → Outcome Wait
builtin_back_fore jid0 pid0 prev ds backg_flag none sh =
    ok (done (set_mask prev (print (missing_argument backg_flag) sh)))
builtin_back_fore jid0 pid0 prev ds backg_flag (some (job_id scan)) sh = do
  let jid = scan_or jid0 scan
  there ← job_exists sh.jobs jid
  if there
      then (do
        pid ← job_get_pid sh.jobs jid
        if is_mismatch scan
            then ok (done (set_mask prev (print (bad_argument backg_flag) sh)))
            else restart prev ds backg_flag jid (pos pid) sh)
      else ok (done (set_mask prev (print (no_such_job jid) sh)))
builtin_back_fore jid0 pid0 prev ds backg_flag (some (process_id scan)) sh = do
  let pid = scan_or pid0 scan
  jid ← job_from_pid sh.jobs pid
  if is_mismatch scan
      then ok (done (set_mask prev (print (bad_argument backg_flag) sh)))
      else restart prev ds backg_flag (pos jid) pid sh

-- What `parseline` and the token say of a command line.
pub data Command : Type 0 where
  empty : Command
  invalid : Command
  external : JobState → Command
  quit : Command
  back_fore : Bool → Option Target → Command
  jobs_command : Command

pub data Eval : Type 0 where
  returned : Shell → Eval
  blocked : Shell → Eval
  exit : Eval

abbrev pub finish : SigSet → Wait → Eval
finish prev (done sh) = returned (set_mask prev sh)
finish prev (waiting sh) = blocked sh

-- The parent behind `fork`, with the signals blocked.
unfoldable pub start_job : SigSet → List Delivery → ℤ → JobState → List ℕ → Shell → Outcome Wait
start_job prev ds pid bg cmdline sh = do
  (s, added) ← add_job sh.jobs pid bg (some cmdline)
  jid ← job_from_pid s pid
  ok (done (print (started jid pid cmdline) (with_jobs sh s)))
start_job prev ds pid state cmdline sh = do
  (s, added) ← add_job sh.jobs pid state (some cmdline)
  wait_fg prev ds (with_jobs sh s)

-- `eval`, where `fork` returns `pid`; the list of the jobs goes to an open descriptor.
unfoldable pub eval : (jid0 pid0 pid : ℤ) → List Delivery → Command → List ℕ → Shell → Outcome Eval
eval jid0 pid0 pid ds empty cmdline sh = ok (returned sh)
eval jid0 pid0 pid ds invalid cmdline sh = ok (returned sh)
eval jid0 pid0 pid ds (external state) cmdline sh = do
  w ← start_job sh.jobs.currmask ds pid state cmdline (set_mask all_blocked sh)
  ok (finish sh.jobs.currmask w)
eval jid0 pid0 pid ds quit cmdline sh = ok exit
eval jid0 pid0 pid ds (back_fore flag target) cmdline sh = do
  w ← builtin_back_fore jid0 pid0 sh.jobs.currmask ds flag target (set_mask all_blocked sh)
  ok (finish sh.jobs.currmask w)
eval jid0 pid0 pid ds jobs_command cmdline sh = do
  lines ← list_jobs (λ job. true) (set_mask all_blocked sh).jobs (pos 1)
  ok (returned sh)
