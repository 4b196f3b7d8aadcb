-- ===== src/Shelllab/Jobs/Tests.antt =====
-- Runs of the model of the job list in shelllab/tsh_helper.c, and its theorems at concrete inputs.
use introduction_to_computer.Common.{
  ℕ, ◌≡◌, refl, true, false, ◌&&◌, List, [], ◌∷◌, some, ltb, if◌then◌else◌,
}
use introduction_to_computer.Shelllab.Jobs.{
  max_jobs, fg, bg, Jobs, pos, ok, stop, init_job_list, exists_at, add_job, delete_job,
  state_allowed,
}
use introduction_to_computer.Shelllab.Jobs.Invariant.{IsValid, Blocked, init_job_list-IsValid}
use introduction_to_computer.Shelllab.Jobs.Add.{added, add_job_lem, add_job-IsValid}
use introduction_to_computer.Shelllab.Jobs.Delete.{deleted, delete_job_lem}

abbrev raw : Jobs
raw = record {
  init = false;
  currmask = record { sigchld = true; sigint = true; sigtstp = true };
  job_list = [];
  nextjid = 0;
}

abbrev fresh : Jobs
fresh = init_job_list raw

abbrev ls : List ℕ
ls = b'l' ∷ b's' ∷ []

fresh-IsValid : IsValid fresh
fresh-IsValid = init_job_list-IsValid raw

fresh-Blocked : Blocked fresh
unfolding init_job_list
fresh-Blocked = (refl, refl, refl)

-- A foreground job, and a second one beside it.
abbrev one : Jobs
one = added fresh 500 fg ls

one_added : add_job fresh (pos 500) fg (some ls) ≡ ok (one, 1)
unfolding add_job init_job_list
one_added = refl

second_refused : add_job one (pos 501) fg (some ls) ≡ stop
unfolding add_job init_job_list
second_refused = refl

one-IsValid : IsValid one
one-IsValid = add_job-IsValid fresh 500 fg ls (one, 1) fresh-IsValid fresh-Blocked one_added

add_job_lem_example : add_job one (pos 501) bg (some ls) ≡ (
    if state_allowed one bg && ltb 0 501
    then if ltb max_jobs one.nextjid then ok (one, 0) else ok (added one 501 bg ls, one.nextjid)
    else stop)
unfolding init_job_list
add_job_lem_example = add_job_lem one 501 bg ls one-IsValid (refl, refl, refl)

delete_job_lem_example :
    (delete_job one (pos 1) ≡ ok (if exists_at one 1 then (deleted one 1, true) else (one, false)))
    × IsValid (if exists_at one 1 then deleted one 1 else one)
unfolding init_job_list
delete_job_lem_example = delete_job_lem one 1 one-IsValid (refl, refl, refl)
