-- ===== src/Shelllab/Jobs/Delete.antt =====
-- `delete_job` of shelllab/tsh_helper.c.
use introduction_to_computer.Common.{
  ℕ, ◌+◌, ◌-◌, ◌<◌, ◌≡◌, refl, inl, inr, true, false, arith, get_or, set, length-set, if◌then◌else◌,
  Bool-cases,
}
use introduction_to_computer.Shelllab.Jobs.{
  max_jobs, no_job, cleared, Jobs, pos, ok, get_job, put_job, exists_at, maxjid_loop, maxjid,
  delete_job,
}
use introduction_to_computer.Shelllab.Jobs.Invariant.{
  IsValid, Blocked, check_blocked-ok, maxjid_loop-used_length, put_job-IsValid,
}
use introduction_to_computer.Shelllab.Jobs.Table.{used_length, count_fg-set, used_length-le}

-- The list without the job.
abbrev pub deleted : Jobs → ℕ → Jobs
deleted s jid =
    let jobs = set s.job_list (jid - 1) (cleared (get_or s.job_list (jid - 1) no_job)) in
    record s { job_list = jobs; nextjid = used_length jobs + 1 }

cleared-IsValid :
    (s : Jobs) (k : ℕ)
    → IsValid s
    → k < max_jobs
    → IsValid (record s {
      job_list = set s.job_list k (cleared (get_or s.job_list k no_job));
      nextjid = used_length (set s.job_list k (cleared (get_or s.job_list k no_job))) + 1;
    })
cleared-IsValid s k v lt =
    let job = cleared (get_or s.job_list k no_job) in
    put_job-IsValid s k _ job v lt ((λ h. cc), λ h. (refl, refl))
      (omega (arith, count_fg-set k job s.job_list (omega (arith, v.size)), v.one_fg)) refl

pub deleted-IsValid :
    (s : Jobs) (jid : ℕ) → IsValid s → exists_at s jid ≡ true → IsValid (deleted s jid)
deleted-IsValid s jid v there = cleared-IsValid s (jid - 1) v (ground arith)

-- On a valid list with the signals blocked, `delete_job` frees exactly the entry of a job that
-- exists, takes one more than the last number then in use for `nextjid`, and returns true; for any
-- other number it changes nothing and returns false. The list stays valid.
pub delete_job_lem :
    (s : Jobs) (jid : ℕ)
    → IsValid s
    → Blocked s
    → (delete_job s (pos jid) ≡ ok (if exists_at s jid then (deleted s jid, true) else (s, false)))
      × IsValid (if exists_at s jid then deleted s jid else s)
unfolding delete_job get_job put_job maxjid
delete_job_lem s jid v b = elim (Bool-cases (exists_at s jid)) [
  | inl there ↦
      let jobs = set s.job_list (jid - 1) (cleared (get_or s.job_list (jid - 1) no_job)) in
      let s' : Jobs = record s { job_list = jobs } in
      let last : maxjid_loop s' max_jobs ≡ used_length jobs =
        maxjid_loop-used_length s' max_jobs (omega arith) (
          omega (
            arith,
            used_length-le jobs,
            length-set s.job_list (jid - 1) (cleared (get_or s.job_list (jid - 1) no_job)),
            v.size,
          )) in
      let here : get_job s jid ≡ ok (get_or s.job_list (jid - 1) no_job) = ground arith in
      rw there (
        rw (check_blocked-ok s v.ready b) (rw here (rw last)),
        cleared-IsValid s (jid - 1) v (ground arith),
      )
  | inr absent ↦ rw absent (rw (check_blocked-ok s v.ready b), v)
]
