-- ===== src/Shelllab/Jobs/States.antt =====
-- `job_set_state`, `fg_job` and `job_from_pid` of shelllab/tsh_helper.c on a valid list.
use introduction_to_computer.Common.{
  ℕ, zero, suc, ◌+◌, ◌-◌, ◌<◌, ◌≡◌, ◌≢◌, refl, ◌⊎◌, inl, inr, true, false, ◌&&◌, arith, get_or, set,
  leb, if◌then◌else◌, ℕ-cases,
}
use introduction_to_computer.Shelllab.Jobs.{
  max_jobs, JobState, is_undef, is_fg, Job, no_job, Jobs, find_fg, find_pid, pos, ok, stop, get_job,
  put_job, exists_at, fg_job, job_from_pid, job_set_state, state_allowed,
}
use introduction_to_computer.Shelllab.Jobs.Invariant.{
  IsValid, Blocked, check_blocked-ok, used_length-set, put_job-IsValid,
}
use introduction_to_computer.Shelllab.Jobs.Table.{
  find_fg_none, count_fg, EntriesOk-get_or, count_fg-set, find_fg-le, find_fg-index,
  find_pid_absent, find_pid-index,
}
use introduction_to_computer.Shelllab.Jobs.Add.{require_valid_state_lem}

-- The list with the state of one job changed.
abbrev pub restated : Jobs → ℕ → JobState → Jobs
restated s jid state =
    let job = get_or s.job_list (jid - 1) no_job in
    record s { job_list = set s.job_list (jid - 1) (record job { state = state }) }

pub restated-IsValid :
    (s : Jobs) (jid : ℕ) (state : JobState)
    → IsValid s
    → exists_at s jid ≡ true
    → state_allowed s state ≡ true
    → IsValid (restated s jid state)
restated-IsValid s jid state v there allowed =
    let k = jid - 1 in
    let old = get_or s.job_list k no_job in
    let job : Job = record old { state = state } in
    let lt : k < max_jobs = ground arith in
    let u : is_undef old.state ≡ false = ground arith in
    let u' : is_undef state ≡ false = ground arith in
    let entry = (EntriesOk-get_or 1 k s.job_list v.entries (omega (arith, v.size))).0 u in
    put_job-IsValid s k s.nextjid job v lt ((λ h. entry), λ h. cc)
      (ground (arith, count_fg-set k job s.job_list, find_fg-le 1 s.job_list, v.size))
      (omega (arith, v.next, used_length-set k job s.job_list u' u (omega (arith, v.size))))

-- On a valid list with the signals blocked, `job_set_state` changes the state of exactly the given
-- job if it exists and the state is allowed (not undefined, and the foreground only while no job
-- holds it); in every other case it ends the process. The list stays valid.
pub job_set_state_lem :
    (s : Jobs) (jid : ℕ) (state : JobState)
    → IsValid s
    → Blocked s
    → (job_set_state s (pos jid) state
        ≡ (if exists_at s jid && state_allowed s state then ok (restated s jid state) else stop))
      × (exists_at s jid ≡ true → state_allowed s state ≡ true → IsValid (restated s jid state))
unfolding job_set_state get_job put_job
job_set_state_lem s jid state v b = (
  rw (check_blocked-ok s v.ready b, require_valid_state_lem s state v.ready b) (ground arith),
  λ there allowed. restated-IsValid s jid state v there allowed,
)

-- On a valid list with the signals blocked, `fg_job` returns the number of a foreground job, or 0
-- if there is none.
pub fg_job_lem :
    (s : Jobs)
    → IsValid s
    → Blocked s
    → (jid : ℕ) × (fg_job s ≡ ok jid)
      × (((jid ≡ 0) × (count_fg s.job_list ≡ 0))
          ⊎ ((exists_at s jid ≡ true) × (is_fg (get_or s.job_list (jid - 1) no_job).state ≡ true)))
unfolding fg_job
fg_job_lem s v b = (
  find_fg 1 s.job_list,
  rw (check_blocked-ok s v.ready b),
  elim (ℕ-cases (count_fg s.job_list)) [
    | inl e ↦ inl (find_fg_none 1 s.job_list e, e)
    | inr (n, e) ↦
        let (k, found, lt, is) = find_fg-index 1 s.job_list (omega arith) in
        let back : 1 + k - 1 ≡ k = omega arith in
        rw (found, back) (inr (ground (arith, v.size), is))
  ],
)

abbrev pub PidResult : Jobs → ℕ → ℕ → Type 0
PidResult s pid jid =
    ((jid ≡ 0) × ((k : ℕ) → exists_at s k ≡ true → (get_or s.job_list (k - 1) no_job).pid ≢ pid))
    ⊎ ((exists_at s jid ≡ true)
        × ((get_or s.job_list (jid - 1) no_job).pid ≡ pid)
        × ((get_or s.job_list (jid - 1) no_job).jid ≡ jid))

pub find_pid-PidResult :
    (s : Jobs) (pid : ℕ) → IsValid s → PidResult s pid (find_pid pid 1 s.job_list)
find_pid-PidResult s pid v = elim (ℕ-cases (find_pid pid 1 s.job_list)) [
  | inl e ↦
      inl (e, λ k there. find_pid_absent pid 1 (k - 1) s.job_list (omega arith) e (ground arith))
  | inr (n, e) ↦
      let (k, found, lt, used, is) = find_pid-index pid 1 s.job_list (λ z. absurd (omega arith)) in
      let back : 1 + k - 1 ≡ k = omega arith in
      let entry = (EntriesOk-get_or 1 k s.job_list v.entries lt).0 used in
      rw (found, back) (inr (ground (arith, v.size), is, entry.0))
]

pub no_process_zero : (s : Jobs) → IsValid s → PidResult s 0 0
no_process_zero s v = inl (
  refl,
  λ k there e.
      let entry : (0 < (get_or s.job_list (k - 1) no_job).pid) =
        ((EntriesOk-get_or 1 (k - 1) s.job_list v.entries (ground (arith, v.size))).0
          (ground arith)).1 in
      absurd (omega arith),
)

-- On a valid list with the signals blocked, `job_from_pid` returns the number of a job that exists
-- and has the process, which its entry also carries, or 0 if no job in the table has it.
pub job_from_pid_lem :
    (s : Jobs) (pid : ℕ)
    → IsValid s
    → Blocked s
    → (jid : ℕ) × (job_from_pid s (pos pid) ≡ ok jid) × PidResult s pid jid
unfolding job_from_pid
job_from_pid_lem s zero v b = (0, rw (check_blocked-ok s v.ready b), no_process_zero s v)
job_from_pid_lem s (suc n) v b =
    let large : leb 1 (suc n) ≡ true = ground arith in
    (
      find_pid (suc n) 1 s.job_list,
      rw (check_blocked-ok s v.ready b, large),
      find_pid-PidResult s (suc n) v,
    )
