-- ===== src/Shelllab/Tsh/Reap.antt =====
-- `sigchld_handler` of shelllab/tsh.c keeps the job list in step with the children.
use introduction_to_computer.Common.{
  ℕ, zero, suc, ◌≡◌, ◌≢◌, refl, ◌∙◌, ap, inl, inr, List, [], ◌∷◌, true, arith, leb, if◌then◌else◌,
  Bool-cases,
}
use introduction_to_computer.Shelllab.Jobs.{
  st, Jobs, SigSet, find_pid, pos, ok, exists_at, job_from_pid,
}
use introduction_to_computer.Shelllab.Jobs.Invariant.{IsValid, Blocked, check_blocked-ok}
use introduction_to_computer.Shelllab.Jobs.Delete.{deleted, delete_job_lem, deleted-IsValid}
use introduction_to_computer.Shelllab.Jobs.States.{
  restated-IsValid, restated, job_set_state_lem, PidResult, find_pid-PidResult, no_process_zero,
}
use introduction_to_computer.Shelllab.Tsh.{
  terminated, stopped_by, Shell, with_jobs, print, set_mask, all_blocked, Status, exited, signaled,
  stopped, reap, reap_all, sigchld_handler,
}

pub IsValid-mask : (s : Jobs) (m : SigSet) → IsValid s → IsValid (record s { currmask = m })
IsValid-mask s m v = record {
  ready = v.ready;
  size = v.size;
  entries = v.entries;
  one_fg = v.one_fg;
  next = v.next;
}

-- The job of a process, or 0.
abbrev pub pid_jid : Jobs → ℕ → ℕ
pid_jid s pid = if leb 1 pid then find_pid pid 1 s.job_list else 0

pub job_from_pid-pid_jid :
    (s : Jobs) (pid : ℕ) → IsValid s → Blocked s → job_from_pid s (pos pid) ≡ ok (pid_jid s pid)
unfolding job_from_pid
job_from_pid-pid_jid s pid v b = rw (check_blocked-ok s v.ready b)

pub pid_jid-PidResult : (s : Jobs) (pid : ℕ) → IsValid s → PidResult s pid (pid_jid s pid)
pid_jid-PidResult s zero v = no_process_zero s v
pid_jid-PidResult s (suc n) v =
    let large : leb 1 (suc n) ≡ true = ground arith in rw large (find_pid-PidResult s (suc n) v)

pub exists_of_known :
    (s : Jobs) (pid : ℕ) → IsValid s → pid_jid s pid ≢ 0 → exists_at s (pid_jid s pid) ≡ true
exists_of_known s pid v known = elim (pid_jid-PidResult s pid v) [
  | inl (e, _) ↦ absurd (known e)
  | inr (there, _, _) ↦ there
]

-- What a child's report makes of the job list: its job is deleted or marked as stopped.
abbrev pub reaped : Jobs → ℕ → Status → Jobs
reaped s pid (stopped sig) = restated s (pid_jid s pid) st
reaped s pid _ = if exists_at s (pid_jid s pid) then deleted s (pid_jid s pid) else s

-- A child that stops has a job. (One that ends need not.)
abbrev pub Known : Jobs → ℕ → Status → Type 0
Known s pid exited = Unit {0}
Known s pid (signaled sig) = Unit {0}
Known s pid (stopped sig) = pid_jid s pid ≢ 0

pub reaped-IsValid :
    (s : Jobs) (pid : ℕ) (status : Status)
    → IsValid s
    → Known s pid status
    → IsValid (reaped s pid status)
reaped-IsValid s pid (stopped sig) v known =
    restated-IsValid s (pid_jid s pid) st v (exists_of_known s pid v known) refl
reaped-IsValid s pid _ v known = elim (Bool-cases (exists_at s (pid_jid s pid))) [
  | inl there ↦ rw there (deleted-IsValid s (pid_jid s pid) v there)
  | inr absent ↦ rw absent v
]

pub reaped-currmask :
    (s : Jobs) (pid : ℕ) (status : Status) → (reaped s pid status).currmask ≡ s.currmask
reaped-currmask s pid (stopped sig) = refl
reaped-currmask s pid _ = ground arith

-- One round of the loop.
pub reap-reaped :
    (sh : Shell) (pid : ℕ) (status : Status)
    → IsValid sh.jobs
    → Blocked sh.jobs
    → Known sh.jobs pid status
    → (sh' : Shell) × (reap sh pid status ≡ ok sh')
      × (sh'.jobs ≡ reaped sh.jobs pid status)
      × (sh'.sent ≡ sh.sent)
unfolding reap
reap-reaped sh pid exited v b known =
    let jid = pid_jid sh.jobs pid in
    let s' = reaped sh.jobs pid exited in
    (
      with_jobs sh s',
      rw (job_from_pid-pid_jid sh.jobs pid v b, (delete_job_lem sh.jobs jid v b).0) (ground arith),
      refl,
      refl,
    )
reap-reaped sh pid (signaled sig) v b known =
    let jid = pid_jid sh.jobs pid in
    let s' = reaped sh.jobs pid exited in
    (
      with_jobs (print (terminated jid pid sig) sh) s',
      rw (job_from_pid-pid_jid sh.jobs pid v b, (delete_job_lem sh.jobs jid v b).0) (ground arith),
      refl,
      refl,
    )
reap-reaped sh pid (stopped sig) v b known =
    let jid = pid_jid sh.jobs pid in
    let there = exists_of_known sh.jobs pid v known in
    (
      print (stopped_by jid pid sig) (with_jobs sh (restated sh.jobs jid st)),
      rw (job_from_pid-pid_jid sh.jobs pid v b, (job_set_state_lem sh.jobs jid st v b).0, there),
      refl,
      refl,
    )

-- The list after all reports, and that no process stops that has no job by then.
abbrev pub reaped_all : Jobs → List (ℕ × Status) → Jobs
reaped_all s [] = s
reaped_all s ((pid, status) ∷ events) = reaped_all (reaped s pid status) events

abbrev pub KnownAll : Jobs → List (ℕ × Status) → Type 0
KnownAll s [] = Unit {0}
KnownAll s ((pid, status) ∷ events) = Known s pid status × KnownAll (reaped s pid status) events

reap_all-reaped_all :
    (sh : Shell) (events : List (ℕ × Status))
    → IsValid sh.jobs
    → Blocked sh.jobs
    → KnownAll sh.jobs events
    → (sh' : Shell) × (reap_all sh events ≡ ok sh')
      × IsValid sh'.jobs
      × (sh'.jobs ≡ reaped_all sh.jobs events)
      × (sh'.sent ≡ sh.sent)
unfolding reap_all
reap_all-reaped_all sh [] v b known = (sh, refl, v, refl, refl)
reap_all-reaped_all sh ((pid, status) ∷ events) v b known =
    let (sh1, e, same, sent) = reap-reaped sh pid status v b known.0 in
    let mask : sh1.jobs.currmask ≡ sh.jobs.currmask =
      ap (λ (s : Jobs). s.currmask) same ∙ reaped-currmask sh.jobs pid status in
    let v1 : IsValid sh1.jobs = rw same (reaped-IsValid sh.jobs pid status v known.0) in
    let b1 : Blocked sh1.jobs = rw mask b in
    let (sh2, e2, v2, same2, sent2) = reap_all-reaped_all sh1 events v1 b1 (rw same known.1) in
    (sh2, rw e e2, v2, same2 ∙ ap (λ s. reaped_all s events) same, sent2 ∙ sent)

-- From a valid job list, whatever signals are blocked: if every child that is reported as stopped
-- has a job at that moment, the SIGCHLD handler runs to its end, deletes the jobs of the children
-- that ended and marks those that stopped, and nothing else of the list changes; it sends no
-- signal, gives the old mask back, and leaves the list valid.
pub sigchld_handler_lem :
    (sh : Shell) (events : List (ℕ × Status))
    → IsValid sh.jobs
    → KnownAll (set_mask all_blocked sh).jobs events
    → (sh' : Shell) × (sigchld_handler sh events ≡ ok sh')
      × IsValid sh'.jobs
      × (sh'.jobs ≡ record (reaped_all (set_mask all_blocked sh).jobs events) {
        currmask = sh.jobs.currmask;
      })
      × (sh'.sent ≡ sh.sent)
unfolding sigchld_handler
sigchld_handler_lem sh events v known =
    let m = sh.jobs.currmask in
    let (sh', e, v', same, sent) =
      reap_all-reaped_all (set_mask all_blocked sh) events (IsValid-mask sh.jobs all_blocked v)
        (refl, refl, refl) known in
    (
      set_mask m sh',
      rw e,
      IsValid-mask sh'.jobs m v',
      ap (λ (s : Jobs). record s { currmask = m }) same,
      sent,
    )
