-- ===== src/Shelllab/Jobs/Invariant.antt =====
-- The invariant of the job list of shelllab/tsh_helper.c, and that its routines keep it.
use introduction_to_computer.Common.{
  ℕ, zero, suc, ◌+◌, ◌-◌, ◌≤◌, ◌<◌, ◌≡◌, refl, List, [], ◌∷◌, true, false, arith, length, get_or,
  set, length-set, get_or-set,
}
use introduction_to_computer.Shelllab.Jobs.{
  max_jobs, is_undef, Job, no_job, Jobs, clear_jobs, ok, check_blocked, init_job_list, maxjid_loop,
}
use introduction_to_computer.Shelllab.Jobs.Table.{
  used_length, count_fg, EntryOk, EntriesOk, EntriesOk-set, undef_above, used_last,
  used_length_unique,
}

-- The list is set up, its entries are in order, at most one job is in the foreground, and
-- `nextjid` is one more than the largest number in use.
pub record IsValid (s : Jobs) : Type 0 where
  pub ready : s.init ≡ true
  pub size : length s.job_list ≡ max_jobs
  pub entries : EntriesOk 1 s.job_list
  pub one_fg : count_fg s.job_list ≤ 1
  pub next : s.nextjid ≡ used_length s.job_list + 1

-- The three signals are blocked, as every routine asks.
abbrev pub Blocked : Jobs → Type 0
Blocked s = (s.currmask.sigchld ≡ true) × (s.currmask.sigint ≡ true) × (s.currmask.sigtstp ≡ true)

pub check_blocked-ok : (s : Jobs) → s.init ≡ true → Blocked s → check_blocked s ≡ ok tt
unfolding check_blocked
check_blocked-ok s i b = ground arith

EntriesOk-clear : (jid n : ℕ) → EntriesOk jid (clear_jobs n)
unfolding clear_jobs
EntriesOk-clear jid zero = tt
EntriesOk-clear jid (suc n) = (((λ h. cc), λ h. (refl, refl)), EntriesOk-clear (jid + 1) n)

pub init_job_list-IsValid : (s : Jobs) → IsValid (init_job_list s)
unfolding init_job_list clear_jobs used_length count_fg
init_job_list-IsValid s = record {
  ready = refl;
  size = refl;
  entries = EntriesOk-clear 1 max_jobs;
  one_fg = omega arith;
  next = refl;
}

-- `maxjid` finds the length of the part in use.
pub maxjid_loop-used_length :
    (s : Jobs) (n : ℕ)
    → n ≤ max_jobs
    → used_length s.job_list ≤ n
    → maxjid_loop s n ≡ used_length s.job_list
unfolding maxjid_loop
maxjid_loop-used_length s zero top h = omega arith
maxjid_loop-used_length s (suc n) top h =
    let e : suc n - 1 ≡ n = omega arith in
    let entry : is_undef (get_or s.job_list (suc n - 1) no_job).state
        ≡ is_undef (get_or s.job_list n no_job).state =
      rw e in
    ground (
      arith,
      entry,
      undef_above n s.job_list,
      used_last n s.job_list,
      maxjid_loop-used_length s n (omega arith),
    )

-- What a new entry behind the used part makes of the table.
pub used_length-insert :
    (job : Job) (jobs : List Job)
    → is_undef job.state ≡ false
    → used_length jobs < length jobs
    → used_length (set jobs (used_length jobs) job) ≡ suc (used_length jobs)
used_length-insert job jobs u lt =
    let n = used_length jobs in
    used_length_unique n (set jobs n job) (rw (get_or-set jobs n n job no_job lt) (ground arith))
      (λ k above. rw (get_or-set jobs n k job no_job lt) (ground (arith, undef_above k jobs)))

-- A change of state between two used states leaves the used part as it is.
pub used_length-set :
    (k : ℕ) (job : Job) (jobs : List Job)
    → is_undef job.state ≡ false
    → is_undef (get_or jobs k no_job).state ≡ false
    → k < length jobs
    → used_length (set jobs k job) ≡ used_length jobs
unfolding used_length
used_length-set k job [] u v lt = refl
used_length-set zero job (j ∷ jobs) u v lt = ground arith
used_length-set (suc k) job (j ∷ jobs) u v lt = ground (arith, used_length-set k job jobs)

-- How one entry of a valid list may be replaced.
pub put_job-IsValid :
    (s : Jobs) (k n : ℕ) (job : Job)
    → IsValid s
    → k < max_jobs
    → EntryOk (1 + k) job
    → count_fg (set s.job_list k job) ≤ 1
    → n ≡ used_length (set s.job_list k job) + 1
    → IsValid (record s { job_list = set s.job_list k job; nextjid = n })
put_job-IsValid s k n job v lt entry one next = record {
  ready = v.ready;
  size = omega (arith, length-set s.job_list k job, v.size);
  entries = EntriesOk-set 1 k job s.job_list entry v.entries;
  one_fg = one;
  next = next;
}
