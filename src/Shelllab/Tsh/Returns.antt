-- ===== src/Shelllab/Tsh/Returns.antt =====
-- What a routine of shelllab/tsh.c leaves behind if it returns at all: the routines on the job list
-- and the signal handlers.
use introduction_to_computer.Common.{
  ℕ, ◌≡◌, refl, ◌∙◌, List, [], ◌∷◌, some, Bool, true, false, arith, if◌then◌else◌, Bool-cases, inl,
  inr, ltb, ◌&&◌, ◌-◌, ◌≤◌, ◌<◌, ◌⊎◌, get_or, set,
}
use introduction_to_computer.Shelllab.Jobs.{
  JobState, st, SigSet, Jobs, max_jobs, ℤ, pos, negsuc, Outcome, ok, stop, ◌>>=◌, exists_at,
  add_job, job_set_state, state_allowed, job_from_pid, Job, no_job, is_fg, cleared,
}
use introduction_to_computer.Shelllab.Jobs.Invariant.{IsValid}
use introduction_to_computer.Shelllab.Jobs.Add.{add_job_lem, added-IsValid, new_job, added}
use introduction_to_computer.Shelllab.Jobs.States.{job_set_state_lem, restated-IsValid, restated}
use introduction_to_computer.Shelllab.Tsh.{
  Signal, sigint, sigtstp, Shell, set_mask, all_blocked, Status, exited, signaled, stopped, reap,
  reap_all, sigchld_handler, forward, sigint_handler, sigtstp_handler, Delivery, child, interrupt,
  suspend, deliver,
}
use introduction_to_computer.Shelllab.Tsh.Reap.{
  reap-reaped, reaped-IsValid, reaped-currmask, Known, IsValid-mask, reaped, pid_jid,
  exists_of_known,
}
use introduction_to_computer.Shelllab.Tsh.Signals.{forward_lem}
use introduction_to_computer.Shelllab.Tsh.Waiting.{Blocked-all}
use introduction_to_computer.Shelllab.Jobs.Table.{count_fg, count_fg-set}

-- What a routine returns satisfies `P`, if it returns.
abbrev pub Every : {A : Type 0} → (A → Type 0) → Outcome A → Type 0
Every P (ok x) = P x
Every P stop = Unit {0}

pub Every-bind :
    {A B : Type 0} (P : A → Type 0) (Q : B → Type 0) (m : Outcome A) (f : A → Outcome B)
    → Every P m
    → ((x : A) → P x → Every Q (f x))
    → Every Q (m >>= f)
Every-bind P Q (ok x) f h k = k x h
Every-bind P Q stop f h k = tt

pub Every-then :
    {A B : Type 0} (Q : B → Type 0) (m : Outcome A) (f : A → Outcome B)
    → ((x : A) → Every Q (f x))
    → Every Q (m >>= f)
Every-then Q (ok x) f k = k x
Every-then Q stop f k = tt

pub Every-if :
    {A : Type 0} (Q : A → Type 0) (b : Bool) (m n : Outcome A)
    → Every Q m
    → Every Q n
    → Every Q (if b then m else n)
Every-if Q true m n h k = h
Every-if Q false m n h k = k

-- A valid list with at most `n` foreground jobs, under a given mask.
abbrev pub At : ℕ → SigSet → Jobs → Type 0
At n m s = IsValid s × (count_fg s.job_list ≤ n) × (s.currmask ≡ m)

abbrev pub ShellAt : ℕ → SigSet → Shell → Type 0
ShellAt n m sh = At n m sh.jobs

-- Writing a job that is not in the foreground adds no foreground job.
count_fg-put :
    (s : Jobs) (k : ℕ) (job : Job)
    → IsValid s
    → k < max_jobs
    → is_fg job.state ≡ false
    → count_fg (set s.job_list k job) ≤ count_fg s.job_list
count_fg-put s k job v lt not_fg = ground (arith, count_fg-set k job s.job_list, v.size)

-- A state that keeps the bound on the number of foreground jobs.
abbrev pub Room : ℕ → JobState → Type 0
Room n state = (is_fg state ≡ false) ⊎ (1 ≤ n)

restated-count_fg :
    (n : ℕ) (s : Jobs) (jid : ℕ) (state : JobState)
    → IsValid s
    → exists_at s jid ≡ true
    → IsValid (restated s jid state)
    → Room n state
    → count_fg s.job_list ≤ n
    → count_fg (restated s jid state).job_list ≤ n
restated-count_fg n s jid state v there v' (inl not_fg) few =
    let lt : jid - 1 < max_jobs = ground arith in
    omega (
      arith,
      count_fg-put s (jid - 1) (record (get_or s.job_list (jid - 1) no_job) { state = state }) v lt
          not_fg,
    )
restated-count_fg n s jid state v there v' (inr room) few = omega (arith, v'.one_fg)

pub job_set_state-Every :
    (n : ℕ) (s : Jobs) (jid : ℕ) (state : JobState)
    → At n all_blocked s
    → Room n state
    → Every (At n all_blocked) (job_set_state s (pos jid) state)
job_set_state-Every n s jid state (v, few, mask) room =
    rw (job_set_state_lem s jid state v (Blocked-all s mask)).0
      (elim (Bool-cases (exists_at s jid)) [
        | inr absent ↦ rw absent tt
        | inl there ↦ elim (Bool-cases (state_allowed s state)) [
          | inr refused ↦ rw (there, refused) tt
          | inl allowed ↦
              let v' = restated-IsValid s jid state v there allowed in
              rw (there, allowed) (v', restated-count_fg n s jid state v there v' room few, mask)
        ]
      ])

added-count_fg :
    (n : ℕ) (s : Jobs) (pid : ℕ) (state : JobState) (cmdline : List ℕ)
    → IsValid s
    → s.nextjid ≤ max_jobs
    → IsValid (added s pid state cmdline)
    → Room n state
    → count_fg s.job_list ≤ n
    → count_fg (added s pid state cmdline).job_list ≤ n
added-count_fg n s pid state cmdline v small v' (inl not_fg) few =
    let lt : s.nextjid - 1 < max_jobs = omega (arith, v.next) in
    omega (arith, count_fg-put s (s.nextjid - 1) (new_job s pid state cmdline) v lt not_fg)
added-count_fg n s pid state cmdline v small v' (inr room) few = omega (arith, v'.one_fg)

pub add_job-Every :
    (n : ℕ) (s : Jobs) (pid : ℤ) (state : JobState) (cmdline : List ℕ)
    → At n all_blocked s
    → Room n state
    → Every (λ r. At n all_blocked r.0) (add_job s pid state (some cmdline))
unfolding add_job
add_job-Every n s (negsuc k) state cmdline h room = tt
add_job-Every n s (pos pid) state cmdline (v, few, mask) room =
    rw (add_job_lem s pid state cmdline v (Blocked-all s mask))
      (elim (Bool-cases (state_allowed s state && ltb 0 pid)) [
        | inr refused ↦ rw refused tt
        | inl allowed ↦ elim (Bool-cases (ltb max_jobs s.nextjid)) [
          | inl full ↦ rw (allowed, full) (v, few, mask)
          | inr space ↦
              let small : s.nextjid ≤ max_jobs = ground arith in
              let v' = added-IsValid s pid state cmdline v (ground arith) (ground arith) small in
              rw (allowed, space)
                (v', added-count_fg n s pid state cmdline v small v' room few, mask)
        ]
      ])

reaped-count_fg :
    (s : Jobs) (pid : ℕ) (status : Status)
    → IsValid s
    → Known s pid status
    → count_fg (reaped s pid status).job_list ≤ count_fg s.job_list
reaped-count_fg s pid (stopped sig) v known =
    restated-count_fg (count_fg s.job_list) s (pid_jid s pid) st v (exists_of_known s pid v known)
      (reaped-IsValid s pid (stopped sig) v known) (inl refl) (omega arith)
reaped-count_fg s pid _ v known = elim (Bool-cases (exists_at s (pid_jid s pid))) [
  | inr absent ↦ rw absent (omega arith)
  | inl there ↦
      let k = pid_jid s pid - 1 in
      let lt : k < max_jobs = ground arith in
      rw there (count_fg-put s k (cleared (get_or s.job_list k no_job)) v lt refl)
]

reap-Known :
    (n : ℕ) (sh : Shell) (pid : ℕ) (status : Status)
    → ShellAt n all_blocked sh
    → Known sh.jobs pid status
    → Every (ShellAt n all_blocked) (reap sh pid status)
reap-Known n sh pid status (v, few, mask) known =
    let (sh', e, same, sent) = reap-reaped sh pid status v (Blocked-all sh.jobs mask) known in
    rw (e, same)
      (
        reaped-IsValid sh.jobs pid status v known,
        omega (arith, reaped-count_fg sh.jobs pid status v known),
        reaped-currmask sh.jobs pid status ∙ mask,
      )

reap-Every :
    (n : ℕ) (sh : Shell) (pid : ℕ) (status : Status)
    → ShellAt n all_blocked sh
    → Every (ShellAt n all_blocked) (reap sh pid status)
unfolding reap
reap-Every n sh pid exited h = reap-Known n sh pid exited h tt
reap-Every n sh pid (signaled sig) h = reap-Known n sh pid (signaled sig) h tt
reap-Every n sh pid (stopped sig) h =
    Every-then (ShellAt n all_blocked) (job_from_pid sh.jobs (pos pid)) _ λ jid.
      Every-bind (At n all_blocked) (ShellAt n all_blocked) (job_set_state sh.jobs (pos jid) st) _
        (job_set_state-Every n sh.jobs jid st h (inl refl)) (λ s h'. h')

reap_all-Every :
    (n : ℕ) (sh : Shell) (events : List (ℕ × Status))
    → ShellAt n all_blocked sh
    → Every (ShellAt n all_blocked) (reap_all sh events)
unfolding reap_all
reap_all-Every n sh [] h = h
reap_all-Every n sh ((pid, status) ∷ events) h =
    Every-bind (ShellAt n all_blocked) (ShellAt n all_blocked) (reap sh pid status) _
      (reap-Every n sh pid status h) (λ sh' h'. reap_all-Every n sh' events h')

sigchld_handler-Every :
    (n : ℕ) (m : SigSet) (sh : Shell) (events : List (ℕ × Status))
    → ShellAt n m sh
    → Every (ShellAt n m) (sigchld_handler sh events)
unfolding sigchld_handler
sigchld_handler-Every n m sh events (v, few, mask) =
    Every-bind (ShellAt n all_blocked) (ShellAt n m) (reap_all (set_mask all_blocked sh) events) _
      (reap_all-Every n (set_mask all_blocked sh) events
        (IsValid-mask sh.jobs all_blocked v, few, refl))
      (λ sh' h'. (IsValid-mask sh'.jobs sh.jobs.currmask h'.0, h'.1, mask))

forward-Every :
    (n : ℕ) (m : SigSet) (sig : Signal) (sh : Shell)
    → ShellAt n m sh
    → Every (ShellAt n m) (forward sig sh)
forward-Every n m sig sh (v, few, mask) = elim (forward_lem sig sh v) [
  | inl (nobody, e) ↦ rw e (v, few, mask)
  | inr (jid, there, is, e) ↦ rw e (v, few, mask)
]

pub deliver-Every :
    (n : ℕ) (m : SigSet) (sh : Shell) (d : Delivery)
    → ShellAt n m sh
    → Every (ShellAt n m) (deliver sh d)
unfolding deliver sigint_handler sigtstp_handler
deliver-Every n m sh (child events) h = sigchld_handler-Every n m sh events h
deliver-Every n m sh interrupt h = forward-Every n m sigint sh h
deliver-Every n m sh suspend h = forward-Every n m sigtstp sh h
