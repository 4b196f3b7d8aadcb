-- ===== src/Shelllab/Tsh/Signals.antt =====
-- Ctrl-C and Ctrl-Z in shelllab/tsh.c, and the wait for the foreground job.
use introduction_to_computer.Common.{
  ℕ, ◌-◌, ◌<◌, ◌≡◌, refl, ◌⊎◌, inl, inr, true, false, arith, get_or, ltb, ◌==◌,
}
use introduction_to_computer.Shelllab.Jobs.{
  is_fg, no_job, Jobs, pos, ok, check_blocked, exists_at, job_exists, job_get_pid, get_job,
  require_job_exists,
}
use introduction_to_computer.Shelllab.Jobs.Table.{count_fg, EntriesOk-get_or}
use introduction_to_computer.Shelllab.Jobs.Invariant.{IsValid, Blocked, check_blocked-ok}
use introduction_to_computer.Shelllab.Jobs.States.{fg_job_lem}
use introduction_to_computer.Shelllab.Tsh.{
  Signal, Shell, kill_group, set_mask, all_blocked, forward,
}
use introduction_to_computer.Shelllab.Tsh.Reap.{IsValid-mask}

pub job_get_pid-ok :
    (s : Jobs) (jid : ℕ)
    → IsValid s
    → Blocked s
    → exists_at s jid ≡ true
    → job_get_pid s (pos jid) ≡ ok (get_or s.job_list (jid - 1) no_job).pid
unfolding job_get_pid require_job_exists job_exists get_job
job_get_pid-ok s jid v b there =
    let ready : check_blocked s ≡ ok tt = check_blocked-ok s v.ready b in
    rw (ready, there) (ground (arith, there))

pid-pos :
    (s : Jobs) (jid : ℕ)
    → IsValid s
    → exists_at s jid ≡ true
    → 0 < (get_or s.job_list (jid - 1) no_job).pid
pid-pos s jid v there =
    ((EntriesOk-get_or 1 (jid - 1) s.job_list v.entries (ground (arith, v.size))).0
      (ground arith)).1

-- The handlers of SIGINT and SIGTSTP, on a valid list and under any mask, change nothing of the
-- shell if no job is in the foreground, and otherwise send their signal to the process group of a
-- foreground job, once, and nothing else.
pub forward_lem :
    (sig : Signal) (sh : Shell)
    → IsValid sh.jobs
    → ((count_fg sh.jobs.job_list ≡ 0) × (forward sig sh ≡ ok sh))
      ⊎ ((jid : ℕ) × (exists_at sh.jobs jid ≡ true)
          × (is_fg (get_or sh.jobs.job_list (jid - 1) no_job).state ≡ true)
          × (forward sig sh
              ≡ ok (kill_group (pos (get_or sh.jobs.job_list (jid - 1) no_job).pid) sig sh)))
unfolding forward
forward_lem sig sh v =
    let s = (set_mask all_blocked sh).jobs in
    let v' = IsValid-mask sh.jobs all_blocked v in
    let (jid, found, what) = fg_job_lem s v' (refl, refl, refl) in
    elim what [
      | inl (z, nobody) ↦ inl (nobody, rw (found, z))
      | inr (there, is) ↦
          let large : ltb 0 jid ≡ true = ground arith in
          let positive : 0 < (get_or s.job_list (jid - 1) no_job).pid = pid-pos s jid v' there in
          let nonzero : ((get_or s.job_list (jid - 1) no_job).pid == 0) ≡ false = ground arith in
          inr (
            jid,
            there,
            is,
            rw (found, large) (rw (job_get_pid-ok s jid v' (refl, refl, refl) there) (rw nonzero)),
          )
    ]
