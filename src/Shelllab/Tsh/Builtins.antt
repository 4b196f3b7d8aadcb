-- ===== src/Shelllab/Tsh/Builtins.antt =====
-- `bg` and `fg` of shelllab/tsh.c, and the start of a job by `eval`.
use introduction_to_computer.Common.{
  ℕ, ◌-◌, ◌≤◌, ◌<◌, ◌≡◌, refl, ◌∙◌, ap, List, ◌∷◌, Bool, true, false, arith, get_or, if◌then◌else◌,
  some,
}
use introduction_to_computer.Shelllab.Jobs.{
  max_jobs, JobState, fg, bg, Job, no_job, Jobs, find_fg, ℤ, pos, ok, stop, check_blocked,
  exists_at, job_exists, job_from_pid, add_job, job_set_state, job_get_cmdline, get_job,
  require_job_exists, state_allowed,
}
use introduction_to_computer.Shelllab.Jobs.Table.{count_fg, find_fg_none}
use introduction_to_computer.Shelllab.Jobs.Invariant.{IsValid, Blocked, check_blocked-ok}
use introduction_to_computer.Shelllab.Jobs.Add.{
  added, add_job_lem, added-IsValid, job_from_pid-add_job,
}
use introduction_to_computer.Shelllab.Jobs.States.{restated, job_set_state_lem, restated-IsValid}
use introduction_to_computer.Shelllab.Tsh.{
  wait_fg, sigcont, Shell, with_jobs, all_blocked, Delivery, Wait, scanned, job_id, process_id,
  restart, builtin_back_fore, external, back_fore, returned, eval, start_job, finish, restarted,
  started,
}
use introduction_to_computer.Shelllab.Tsh.Reap.{IsValid-mask, pid_jid, job_from_pid-pid_jid}
use introduction_to_computer.Shelllab.Tsh.Signals.{job_get_pid-ok}
use introduction_to_computer.Shelllab.Tsh.Waiting.{masked, KnownDeliveries, Waited, wait_fg_lem}

job_get_cmdline-ok :
    (s : Jobs) (jid : ℕ)
    → IsValid s
    → Blocked s
    → job_get_cmdline s (pos jid)
      ≡ (if exists_at s jid then ok (get_or s.job_list (jid - 1) no_job).cmdline else stop)
unfolding job_get_cmdline require_job_exists job_exists get_job
job_get_cmdline-ok s jid v b = rw (check_blocked-ok s v.ready b) (ground arith)

-- `bg` and `fg` with the pid of no job: instead of an error message the shell ends. (The source
-- tests what `job_from_pid` returns nowhere.)
pub unknown_process_stops :
    (jid0 pid0 fork : ℤ) (ds : List Delivery) (flag : Bool) (pid : ℕ) (cmdline : List ℕ)
    (sh : Shell)
    → IsValid sh.jobs
    → pid_jid sh.jobs pid ≡ 0
    → eval jid0 pid0 fork ds (back_fore flag (some (process_id (scanned (pos pid))))) cmdline sh
      ≡ stop
unfolding eval builtin_back_fore restart
unknown_process_stops jid0 pid0 fork ds true pid cmdline sh v absent =
    let s = masked sh.jobs in
    let v' = IsValid-mask sh.jobs all_blocked v in
    let b : Blocked s = (refl, refl, refl) in
    rw (job_from_pid-pid_jid s pid v' b, absent) (rw (job_get_cmdline-ok s 0 v' b))
unknown_process_stops jid0 pid0 fork ds false pid cmdline sh v absent =
    let s = masked sh.jobs in
    let v' = IsValid-mask sh.jobs all_blocked v in
    let b : Blocked s = (refl, refl, refl) in
    rw (job_from_pid-pid_jid s pid v' b, absent, (job_set_state_lem s 0 fg v' b).0)

-- `bg %jid` for a job that exists, and that no earlier job shares its pid with: the shell prints
-- the job, sends SIGCONT to its process group and marks it as running in the background; nothing
-- else of the list changes, it stays valid, and the old mask is back.
pub bg_job_lem :
    (jid0 pid0 fork : ℤ) (ds : List Delivery) (jid : ℕ) (cmdline : List ℕ) (sh : Shell)
    → IsValid sh.jobs
    → exists_at sh.jobs jid ≡ true
    → pid_jid sh.jobs (get_or sh.jobs.job_list (jid - 1) no_job).pid ≡ jid
    → let job : Job = get_or sh.jobs.job_list (jid - 1) no_job in
      (eval jid0 pid0 fork ds (back_fore true (some (job_id (scanned (pos jid))))) cmdline sh
        ≡ ok (
            returned (record {
              jobs = restated sh.jobs jid bg;
              sent = (pos job.pid, sigcont) ∷ sh.sent;
              printed = restarted (pos jid) (pos job.pid) job.cmdline ∷ sh.printed;
            })))
      × IsValid (restated sh.jobs jid bg)
unfolding eval builtin_back_fore restart job_exists
bg_job_lem jid0 pid0 fork ds jid cmdline sh v there found =
    let s = masked sh.jobs in
    let v' = IsValid-mask sh.jobs all_blocked v in
    let b : Blocked s = (refl, refl, refl) in
    let ready : check_blocked s ≡ ok tt = check_blocked-ok s v'.ready b in
    let p = (get_or sh.jobs.job_list (jid - 1) no_job).pid in
    let pid_ok = job_get_pid-ok s jid v' b there in
    let line : job_get_cmdline s (pos jid) ≡ ok (get_or s.job_list (jid - 1) no_job).cmdline =
      job_get_cmdline-ok s jid v' b ∙ ground arith in
    let again : job_from_pid s (pos p) ≡ ok jid = job_from_pid-pid_jid s p v' b ∙ ap ok found in
    let put : job_set_state s (pos jid) bg ≡ ok (restated s jid bg) =
      (job_set_state_lem s jid bg v' b).0 ∙ ground arith in
    (
      rw (ready, there) (rw pid_ok (rw line (rw again (rw put)))),
      restated-IsValid sh.jobs jid bg v there refl,
    )

added-ok :
    (s : Jobs) (pid : ℕ) (state : JobState) (cmdline : List ℕ)
    → IsValid s
    → Blocked s
    → state_allowed s state ≡ true
    → 0 < pid
    → s.nextjid ≤ max_jobs
    → add_job s (pos pid) state (some cmdline) ≡ ok (added s pid state cmdline, s.nextjid)
added-ok s pid state cmdline v b allowed p room = add_job_lem s pid state cmdline v b ∙ ground arith

-- A foreground command, with a valid list that has room and no foreground job, a successful fork
-- and any signals that arrive in which no process is reported as stopped without a job: `eval`
-- adds the job, and ends as the wait ends that starts on the list with it: it either still waits
-- for it or has returned, with no job in the foreground.
pub eval_foreground :
    (jid0 pid0 : ℤ) (pid : ℕ) (ds : List Delivery) (cmdline : List ℕ) (sh : Shell)
    → IsValid sh.jobs
    → count_fg sh.jobs.job_list ≡ 0
    → 0 < pid
    → sh.jobs.nextjid ≤ max_jobs
    → KnownDeliveries (added (masked sh.jobs) pid fg cmdline) ds
    → (w : Wait) × (wait_fg sh.jobs.currmask ds
          (with_jobs sh (added (masked sh.jobs) pid fg cmdline))
        ≡ ok w)
      × (eval jid0 pid0 (pos pid) ds (external fg) cmdline sh ≡ ok (finish sh.jobs.currmask w))
      × Waited w
unfolding eval start_job
eval_foreground jid0 pid0 pid ds cmdline sh v nobody p room known =
    let s = masked sh.jobs in
    let v' = IsValid-mask sh.jobs all_blocked v in
    let none_fg : find_fg 1 s.job_list ≡ 0 = find_fg_none 1 s.job_list nobody in
    let allowed : state_allowed s fg ≡ true = rw none_fg in
    let (w, run, end) =
      wait_fg_lem sh.jobs.currmask ds (with_jobs sh (added s pid fg cmdline))
        (added-IsValid s pid fg cmdline v' allowed p room) refl known in
    (w, run, rw (added-ok s pid fg cmdline v' (refl, refl, refl) allowed p room) (rw run), end)

-- A background command, under the same conditions on the list and the fork, and with no job of
-- that pid: `eval` adds the job and reports its number, waits for nothing and restores the mask.
pub eval_background :
    (jid0 pid0 : ℤ) (pid : ℕ) (ds : List Delivery) (cmdline : List ℕ) (sh : Shell)
    → IsValid sh.jobs
    → 0 < pid
    → sh.jobs.nextjid ≤ max_jobs
    → pid_jid sh.jobs pid ≡ 0
    → (eval jid0 pid0 (pos pid) ds (external bg) cmdline sh
        ≡ ok (
            returned (record {
              jobs = added sh.jobs pid bg cmdline;
              sent = sh.sent;
              printed = started sh.jobs.nextjid (pos pid) cmdline ∷ sh.printed;
            })))
      × IsValid (added sh.jobs pid bg cmdline)
unfolding eval start_job
eval_background jid0 pid0 pid ds cmdline sh v p room absent =
    let s = masked sh.jobs in
    let v' = IsValid-mask sh.jobs all_blocked v in
    let b : Blocked s = (refl, refl, refl) in
    let none_yet : job_from_pid s (pos pid) ≡ ok 0 =
      job_from_pid-pid_jid s pid v' b ∙ ap ok absent in
    let put = added-ok s pid bg cmdline v' b refl p room in
    let found : job_from_pid (added s pid bg cmdline) (pos pid) ≡ ok s.nextjid =
      rw put at (job_from_pid-add_job s pid bg cmdline v' b refl p room none_yet) in
    (rw put (rw found), added-IsValid sh.jobs pid bg cmdline v refl p room)
