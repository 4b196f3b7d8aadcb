-- ===== src/Shelllab/Jobs/Add.antt =====
-- `add_job` of shelllab/tsh_helper.c, on every branch.
use introduction_to_computer.Common.{
  ℕ, ◌+◌, ◌-◌, ◌≤◌, ◌<◌, ◌≡◌, refl, sym, ◌∙◌, inl, inr, List, true, false, ◌&&◌, arith, get_or, set,
  ltb, if◌then◌else◌, Bool-cases, some, subst,
}
use introduction_to_computer.Shelllab.Jobs.{
  max_jobs, JobState, undef, fg, bg, st, is_undef, Job, no_job, Jobs, find_pid, pos, ok, stop,
  get_job, put_job, fg_job, job_from_pid, require, require_valid_state, add_job, insert_job,
  state_allowed, ◌>>=◌,
}
use introduction_to_computer.Shelllab.Jobs.Invariant.{
  IsValid, Blocked, check_blocked-ok, used_length-insert, put_job-IsValid,
}
use introduction_to_computer.Shelllab.Jobs.Table.{
  used_length, count_fg-set, undef_above, find_fg-le, find_pid-set,
}

abbrev pub new_job : Jobs → ℕ → JobState → List ℕ → Job
new_job s pid state cmdline = record {
  pid = pid;
  jid = s.nextjid;
  state = state;
  cmdline = cmdline;
}

-- The list with the new job behind all others.
abbrev pub added : Jobs → ℕ → JobState → List ℕ → Jobs
added s pid state cmdline = record s {
  job_list = set s.job_list (s.nextjid - 1) (new_job s pid state cmdline);
  nextjid = s.nextjid + 1;
}

pub require_valid_state_lem :
    (s : Jobs) (state : JobState)
    → s.init ≡ true
    → Blocked s
    → require_valid_state s state ≡ require (state_allowed s state)
unfolding require_valid_state fg_job
require_valid_state_lem s undef i b = refl
require_valid_state_lem s fg i b = rw (check_blocked-ok s i b)
require_valid_state_lem s bg i b = refl
require_valid_state_lem s st i b = refl

insert_job_lem :
    (s : Jobs) (pid : ℕ) (state : JobState) (cmdline : List ℕ)
    → IsValid s
    → insert_job s pid state cmdline
      ≡ (if ltb max_jobs s.nextjid then ok (s, 0) else ok (added s pid state cmdline, s.nextjid))
unfolding insert_job get_job put_job
insert_job_lem s pid state cmdline v =
    let free : is_undef (get_or s.job_list (s.nextjid - 1) no_job).state ≡ true =
      undef_above (s.nextjid - 1) s.job_list (omega (arith, v.next)) in
    ground (arith, v.next, free)

-- On a valid list with the signals blocked, `add_job` with a command line ends the process exactly
-- if the pid is 0, the state is undefined, or it is the foreground beside another foreground job;
-- else it returns 0 and changes nothing if `nextjid` is beyond the table, and otherwise stores
-- the job under `nextjid`, which it returns and advances.
pub add_job_lem :
    (s : Jobs) (pid : ℕ) (state : JobState) (cmdline : List ℕ)
    → IsValid s
    → Blocked s
    → add_job s (pos pid) state (some cmdline) ≡ (
        if state_allowed s state && ltb 0 pid
        then if ltb max_jobs s.nextjid then ok (s, 0) else ok (added s pid state cmdline, s.nextjid)
        else stop)
unfolding add_job
add_job_lem s pid state cmdline v b =
    rw (check_blocked-ok s v.ready b, require_valid_state_lem s state v.ready b)
      (ground (arith, insert_job_lem s pid state cmdline v))

pub added-IsValid :
    (s : Jobs) (pid : ℕ) (state : JobState) (cmdline : List ℕ)
    → IsValid s
    → state_allowed s state ≡ true
    → 0 < pid
    → s.nextjid ≤ max_jobs
    → IsValid (added s pid state cmdline)
added-IsValid s pid state cmdline v allowed p room =
    let n = used_length s.job_list in
    let job = new_job s pid state cmdline in
    let e : s.nextjid - 1 ≡ n = omega (arith, v.next) in
    let u : is_undef state ≡ false = ground arith in
    rw e (
      put_job-IsValid s n (s.nextjid + 1) job v (omega (arith, v.next))
        ((λ h. (omega (arith, v.next), p)), λ h. cc)
        (ground (arith, count_fg-set n job s.job_list, find_fg-le 1 s.job_list, v.size, v.next))
        (omega
          (arith, used_length-insert job s.job_list u (omega (arith, v.next, v.size)), v.next)))

-- Whatever a successful `add_job` returns, the list that it leaves is valid.
pub add_job-IsValid :
    (s : Jobs) (pid : ℕ) (state : JobState) (cmdline : List ℕ) (r : Jobs × ℕ)
    → IsValid s
    → Blocked s
    → add_job s (pos pid) state (some cmdline) ≡ ok r
    → IsValid r.0
add_job-IsValid s pid state cmdline r v b h =
    let h' = sym (add_job_lem s pid state cmdline v b) ∙ h in
    elim (Bool-cases (state_allowed s state && ltb 0 pid)) [
      | inr refused ↦ absurd (ground arith)
      | inl allowed ↦ elim (Bool-cases (ltb max_jobs s.nextjid)) [
        | inl crowded ↦ let e : s ≡ r.0 = ground arith in subst IsValid e v
        | inr room ↦
            let e : added s pid state cmdline ≡ r.0 = ground arith in
            subst IsValid e
              (added-IsValid s pid state cmdline v (ground arith) (ground arith) (ground arith))
      ]
    ]

-- On a valid list with room and the signals blocked, where no job has the pid, `add_job` in an
-- allowed state returns a list on which `job_from_pid` finds the number that it returned.
pub job_from_pid-add_job :
    (s : Jobs) (pid : ℕ) (state : JobState) (cmdline : List ℕ)
    → IsValid s
    → Blocked s
    → state_allowed s state ≡ true
    → 0 < pid
    → s.nextjid ≤ max_jobs
    → job_from_pid s (pos pid) ≡ ok 0
    → (do (s', jid) ← add_job s (pos pid) state (some cmdline); job_from_pid s' (pos pid))
      ≡ ok s.nextjid
unfolding job_from_pid
job_from_pid-add_job s pid state cmdline v b allowed p room absent =
    let e : add_job s (pos pid) state (some cmdline) ≡ ok (added s pid state cmdline, s.nextjid) =
      add_job_lem s pid state cmdline v b ∙ ground arith in
    let none_yet : find_pid pid 1 s.job_list ≡ 0 =
      ground (arith, absent, check_blocked-ok s v.ready b) in
    let found : find_pid pid 1 (added s pid state cmdline).job_list ≡ 1 + (s.nextjid - 1) =
      find_pid-set pid 1 (s.nextjid - 1) (new_job s pid state cmdline) s.job_list (omega arith)
        (omega (arith, v.size, v.next)) none_yet (ground arith) refl in
    rw (e, check_blocked-ok (added s pid state cmdline) v.ready b) (ground (arith, found, v.next))
