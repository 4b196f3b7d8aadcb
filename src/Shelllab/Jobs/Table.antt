-- ===== src/Shelllab/Jobs/Table.antt =====
-- The table of jobs as a list: its last entry in use, its foreground jobs, and what the search
-- loops of shelllab/tsh_helper.c find in it.
use introduction_to_computer.Common.{
  ℕ, zero, suc, ◌+◌, ◌≤◌, ◌<◌, ◌≡◌, ◌≢◌, refl, inl, inr, List, [], ◌∷◌, true, false, not, ◌&&◌,
  arith, length, get_or, set, ◌==◌, if◌then◌else◌, Bool-cases,
}
use introduction_to_computer.Shelllab.Jobs.{is_undef, is_fg, Job, no_job, find_fg, find_pid}

-- The number of the entries up to the last one that is in use.
unfoldable pub used_length : List Job → ℕ
used_length [] = 0
used_length (job ∷ jobs) =
    let rest = used_length jobs in
    if rest == 0 then (if is_undef job.state then 0 else 1) else rest + 1

unfoldable pub count_fg : List Job → ℕ
count_fg [] = 0
count_fg (job ∷ jobs) = (if is_fg job.state then 1 else 0) + count_fg jobs

-- A used entry of the table has its own number and a process, a free one neither.
abbrev pub EntryOk : ℕ → Job → Type 0
EntryOk jid job =
    (is_undef job.state ≡ false → (job.jid ≡ jid) × (0 < job.pid))
    × (is_undef job.state ≡ true → (job.jid ≡ 0) × (job.pid ≡ 0))

abbrev pub EntriesOk : ℕ → List Job → Type 0
EntriesOk jid [] = Unit {0}
EntriesOk jid (job ∷ jobs) = EntryOk jid job × EntriesOk (jid + 1) jobs

pub EntriesOk-set :
    (jid k : ℕ) (job : Job) (jobs : List Job)
    → EntryOk (jid + k) job
    → EntriesOk jid jobs
    → EntriesOk jid (set jobs k job)
EntriesOk-set jid k job [] h ok = tt
EntriesOk-set jid zero job (j ∷ jobs) h ok =
    let e : jid + 0 ≡ jid = omega arith in (rw e at h, ok.1)
EntriesOk-set jid (suc k) job (j ∷ jobs) h ok =
    let e : jid + suc k ≡ jid + 1 + k = omega arith in
    (ok.0, EntriesOk-set (jid + 1) k job jobs (rw e at h) ok.1)

pub EntriesOk-get_or :
    (jid k : ℕ) (jobs : List Job)
    → EntriesOk jid jobs
    → k < length jobs
    → EntryOk (jid + k) (get_or jobs k no_job)
EntriesOk-get_or jid k [] ok h = absurd (omega arith)
EntriesOk-get_or jid zero (j ∷ jobs) ok h = let e : jid + 0 ≡ jid = omega arith in rw e ok.0
EntriesOk-get_or jid (suc k) (j ∷ jobs) ok h =
    let e : jid + suc k ≡ jid + 1 + k = omega arith in
    rw e (EntriesOk-get_or (jid + 1) k jobs ok.1 (omega arith))

pub count_fg-set :
    (k : ℕ) (job : Job) (jobs : List Job)
    → k < length jobs
    → count_fg (set jobs k job) + (if is_fg (get_or jobs k no_job).state then 1 else 0)
      ≡ count_fg jobs + (if is_fg job.state then 1 else 0)
unfolding count_fg
count_fg-set k job [] h = absurd (omega arith)
count_fg-set zero job (j ∷ jobs) h = omega arith
count_fg-set (suc k) job (j ∷ jobs) h = omega (arith, count_fg-set k job jobs (omega arith))

pub used_length-le : (jobs : List Job) → used_length jobs ≤ length jobs
unfolding used_length
used_length-le [] = omega arith
used_length-le (job ∷ jobs) = ground (arith, used_length-le jobs)

-- What the length says: behind it every entry is free, and its last entry is used.
pub undef_above :
    (k : ℕ) (jobs : List Job) → used_length jobs ≤ k → is_undef (get_or jobs k no_job).state ≡ true
unfolding used_length
undef_above k [] h = refl
undef_above zero (job ∷ jobs) h = ground arith
undef_above (suc k) (job ∷ jobs) h = ground (arith, undef_above k jobs)

pub used_last :
    (n : ℕ) (jobs : List Job)
    → used_length jobs ≡ suc n
    → is_undef (get_or jobs n no_job).state ≡ false
unfolding used_length
used_last n [] h = absurd (omega arith)
used_last zero (job ∷ jobs) h = ground arith
used_last (suc n) (job ∷ jobs) h = ground (arith, used_last n jobs)

used_length-zero :
    (jobs : List Job)
    → ((k : ℕ) → is_undef (get_or jobs k no_job).state ≡ true)
    → used_length jobs ≡ 0
unfolding used_length
used_length-zero [] free = refl
used_length-zero (job ∷ jobs) free =
    ground (arith, free 0, used_length-zero jobs (λ k. free (suc k)))

-- Those two facts determine it.
pub used_length_unique :
    (n : ℕ) (jobs : List Job)
    → is_undef (get_or jobs n no_job).state ≡ false
    → ((k : ℕ) → n < k → is_undef (get_or jobs k no_job).state ≡ true)
    → used_length jobs ≡ suc n
unfolding used_length
used_length_unique n [] last above = cc
used_length_unique zero (job ∷ jobs) last above =
    ground (arith, used_length-zero jobs (λ k. above (suc k) (omega arith)))
used_length_unique (suc n) (job ∷ jobs) last above =
    ground (arith, used_length_unique n jobs last (λ k h. above (suc k) (omega arith)))

pub find_fg-le : (jid : ℕ) (jobs : List Job) → 0 < jid → (find_fg jid jobs ≡ 0) → count_fg jobs ≡ 0
unfolding find_fg count_fg
find_fg-le jid [] h e = refl
find_fg-le jid (job ∷ jobs) h e = ground (arith, find_fg-le (jid + 1) jobs)

pub find_fg_none : (jid : ℕ) (jobs : List Job) → count_fg jobs ≡ 0 → find_fg jid jobs ≡ 0
unfolding find_fg count_fg
find_fg_none jid [] e = refl
find_fg_none jid (job ∷ jobs) e = ground (arith, find_fg_none (jid + 1) jobs)

pub find_fg-index :
    (jid : ℕ) (jobs : List Job)
    → 0 < count_fg jobs
    → (k : ℕ) × (find_fg jid jobs ≡ jid + k)
      × (k < length jobs)
      × (is_fg (get_or jobs k no_job).state ≡ true)
unfolding find_fg count_fg
find_fg-index jid [] h = absurd (omega arith)
find_fg-index jid (job ∷ jobs) h = elim (Bool-cases (is_fg job.state)) [
  | inl here ↦ (0, ground arith, omega arith, here)
  | inr later ↦
      let (k, found, lt, is) = find_fg-index (jid + 1) jobs (ground arith) in
      (suc k, ground arith, omega arith, is)
]

pub find_pid-index :
    (pid jid : ℕ) (jobs : List Job)
    → find_pid pid jid jobs ≢ 0
    → (k : ℕ) × (find_pid pid jid jobs ≡ jid + k)
      × (k < length jobs)
      × (is_undef (get_or jobs k no_job).state ≡ false)
      × ((get_or jobs k no_job).pid ≡ pid)
unfolding find_pid
find_pid-index pid jid [] h = absurd (h refl)
find_pid-index pid jid (job ∷ jobs) h =
    elim (Bool-cases (not (is_undef job.state) && job.pid == pid)) [
      | inl here ↦ (0, ground arith, omega arith, ground arith, ground arith)
      | inr later ↦
          let (k, found, lt, used, is) = find_pid-index pid (jid + 1) jobs (ground arith) in
          (suc k, ground arith, omega arith, used, is)
    ]

-- A search that finds nothing leaves no job with the process.
pub find_pid_absent :
    (pid jid k : ℕ) (jobs : List Job)
    → 0 < jid
    → find_pid pid jid jobs ≡ 0
    → is_undef (get_or jobs k no_job).state ≡ false
    → (get_or jobs k no_job).pid ≢ pid
unfolding find_pid
find_pid_absent pid jid k [] p h u = cc
find_pid_absent pid jid zero (job ∷ jobs) p h u = ground arith
find_pid_absent pid jid (suc k) (job ∷ jobs) p h u =
    ground (arith, find_pid_absent pid (jid + 1) k jobs)

-- With the process absent a new entry for it is found where it is put.
pub find_pid-set :
    (pid jid k : ℕ) (job : Job) (jobs : List Job)
    → 0 < jid
    → k < length jobs
    → find_pid pid jid jobs ≡ 0
    → is_undef job.state ≡ false
    → job.pid ≡ pid
    → find_pid pid jid (set jobs k job) ≡ jid + k
unfolding find_pid
find_pid-set pid jid k job [] p lt h u e = absurd (omega arith)
find_pid-set pid jid zero job (j ∷ jobs) p lt h u e = ground arith
find_pid-set pid jid (suc k) job (j ∷ jobs) p lt h u e =
    ground (arith, find_pid-set pid (jid + 1) k job jobs)

pub count_fg-pos :
    (k : ℕ) (jobs : List Job) → is_fg (get_or jobs k no_job).state ≡ true → 0 < count_fg jobs
unfolding count_fg
count_fg-pos k [] h = absurd (ground arith)
count_fg-pos zero (job ∷ jobs) h = ground arith
count_fg-pos (suc k) (job ∷ jobs) h = omega (arith, count_fg-pos k jobs h)
