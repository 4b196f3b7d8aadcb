-- ===== src/Shelllab/Tsh/Reachable.antt =====
-- The shell of shelllab/tsh.c over any sequence of command lines and signals: what holds of the job
-- list whenever the shell is back in its loop.
use introduction_to_computer.Common.{
  ℕ, ◌≡◌, refl, subst, List, [], ◌∷◌, Option, none, some, Bool, true, false, inl, inr, ltb, ◌≤◌,
  ℕ-cases, arith,
}
use introduction_to_computer.Shelllab.Jobs.{
  JobState, fg, bg, SigSet, Jobs, ℤ, pos, Outcome, ok, add_job, job_set_state, job_from_pid,
  job_get_pid, job_get_cmdline, job_exists, list_jobs, init_job_list,
}
use introduction_to_computer.Shelllab.Jobs.Invariant.{IsValid, init_job_list-IsValid}
use introduction_to_computer.Shelllab.Parse.{Text, parseline}
use introduction_to_computer.Shelllab.Tsh.{
  Signal, sigcont, kill_group, Message, Shell, with_jobs, set_mask, all_blocked, Delivery, deliver,
  Wait, done, waiting, wait_fg, Target, job_id, process_id, restart, builtin_back_fore, Command,
  empty, invalid, external, quit, back_fore, jobs_command, Eval, returned, finish, start_job, eval,
  scan_or, is_mismatch,
}
use introduction_to_computer.Shelllab.Tsh.Reap.{IsValid-mask}
use introduction_to_computer.Shelllab.Jobs.Table.{count_fg}
use introduction_to_computer.Shelllab.Jobs.States.{fg_job_lem}
use introduction_to_computer.Shelllab.Tsh.Waiting.{Blocked-all, wait_fg_end, wait_fg-nil}
use introduction_to_computer.Shelllab.Tsh.Line.{Scanner, eval_line, command_of}
use introduction_to_computer.Shelllab.Tsh.Returns.{
  Every, Every-bind, Every-then, Every-if, At, ShellAt, job_set_state-Every, add_job-Every,
  deliver-Every,
}

-- A wait that is done has no foreground job left. (What the mask is then is settled by `eval`.)
abbrev Ended : Wait → Type 0
Ended (done sh) = IsValid sh.jobs × (count_fg sh.jobs.job_list ≤ 0)
Ended (waiting sh) = Unit {0}

wait_fg-Every :
    (m : SigSet) (ds : List Delivery) (sh : Shell)
    → ShellAt 1 all_blocked sh
    → Every Ended (wait_fg m ds sh)
unfolding wait_fg
wait_fg-Every m [] sh h = elim (ℕ-cases (count_fg sh.jobs.job_list)) [
  | inl nobody ↦ rw (wait_fg_end m [] sh h.0 h.2 nobody) (h.0, omega arith)
  | inr (n, some_fg) ↦ rw (wait_fg-nil m sh h.0 h.2 (λ z. absurd (omega arith))) tt
]
wait_fg-Every m (d ∷ ds) sh h =
    let (jid, found, what) = fg_job_lem sh.jobs h.0 (Blocked-all sh.jobs h.2) in
    elim what [
      | inl (z, nobody) ↦ rw (wait_fg_end m (d ∷ ds) sh h.0 h.2 nobody) (h.0, omega arith)
      | inr (there, is) ↦
          let large : ltb 0 jid ≡ true = ground arith in
          rw (found, large)
            (Every-bind (ShellAt 1 m) Ended (deliver (set_mask m sh) d) _
              (deliver-Every 1 m (set_mask m sh) d (IsValid-mask sh.jobs m h.0, h.1, refl))
              (λ sh' h'.
                wait_fg-Every m ds (set_mask sh.jobs.currmask sh')
                  (IsValid-mask sh'.jobs sh.jobs.currmask h'.0, h'.1, h.2)))
    ]

-- A list without foreground jobs has room for one.
ShellAt-one : (m : SigSet) (sh : Shell) → ShellAt 0 m sh → ShellAt 1 m sh
ShellAt-one m sh (v, few, mask) = (v, omega arith, mask)

restart-Every :
    (m : SigSet) (ds : List Delivery) (flag : Bool) (jid pid : ℤ) (sh : Shell)
    → ShellAt 0 all_blocked sh
    → Every Ended (restart m ds flag jid pid sh)
unfolding restart
restart-Every m ds true jid pid sh h = Every-then Ended (job_get_cmdline sh.jobs jid) _ λ line.
    Every-then Ended (job_from_pid sh.jobs pid) _ λ again.
      Every-bind (At 0 all_blocked) Ended (job_set_state sh.jobs (pos again) bg) _
        (job_set_state-Every 0 sh.jobs again bg h (inl refl)) (λ s h'. (h'.0, h'.1))
restart-Every m ds false jid pid sh h = Every-then Ended (job_from_pid sh.jobs pid) _ λ again.
    Every-bind (At 1 all_blocked) Ended (job_set_state sh.jobs (pos again) fg) _
      (job_set_state-Every 1 sh.jobs again fg (ShellAt-one all_blocked sh h) (inr (omega arith)))
      (λ s h'. wait_fg-Every m ds (with_jobs (kill_group pid sigcont sh) s) h')

builtin_back_fore-Every :
    (jid0 pid0 : ℤ) (m : SigSet) (ds : List Delivery) (flag : Bool) (target : Option Target)
    (sh : Shell)
    → ShellAt 0 all_blocked sh
    → Every Ended (builtin_back_fore jid0 pid0 m ds flag target sh)
unfolding builtin_back_fore
builtin_back_fore-Every jid0 pid0 m ds flag none sh h = (IsValid-mask sh.jobs m h.0, h.1)
builtin_back_fore-Every jid0 pid0 m ds flag (some (job_id scan)) sh h =
    let jid = scan_or jid0 scan in
    Every-then Ended (job_exists sh.jobs jid) _ λ there.
      Every-if Ended there _ _
        (Every-then Ended (job_get_pid sh.jobs jid) _ λ pid.
          Every-if Ended (is_mismatch scan) _ _ (IsValid-mask sh.jobs m h.0, h.1)
            (restart-Every m ds flag jid (pos pid) sh h))
        (IsValid-mask sh.jobs m h.0, h.1)
builtin_back_fore-Every jid0 pid0 m ds flag (some (process_id scan)) sh h =
    let pid = scan_or pid0 scan in
    Every-then Ended (job_from_pid sh.jobs pid) _ λ jid.
      Every-if Ended (is_mismatch scan) _ _ (IsValid-mask sh.jobs m h.0, h.1)
        (restart-Every m ds flag (pos jid) pid sh h)

start_job-Every :
    (m : SigSet) (ds : List Delivery) (pid : ℤ) (state : JobState) (cmdline : List ℕ) (sh : Shell)
    → ShellAt 0 all_blocked sh
    → Every Ended (start_job m ds pid state cmdline sh)
unfolding start_job
start_job-Every m ds pid bg cmdline sh h =
    Every-bind (λ (r : Jobs × ℕ). At 0 all_blocked r.0) Ended
      (add_job sh.jobs pid bg (some cmdline)) _
      (add_job-Every 0 sh.jobs pid bg cmdline h (inl refl))
      (λ r h'. Every-then Ended (job_from_pid r.0 pid) _ (λ jid. (h'.0, h'.1)))
start_job-Every m ds pid state cmdline sh h =
    Every-bind (λ (r : Jobs × ℕ). At 1 all_blocked r.0) Ended
      (add_job sh.jobs pid state (some cmdline)) _
      (add_job-Every 1 sh.jobs pid state cmdline (ShellAt-one all_blocked sh h) (inr (omega arith)))
      (λ r h'. wait_fg-Every m ds (with_jobs sh r.0) h')

abbrev pub EvalAt : SigSet → Eval → Type 0
EvalAt m (returned sh) = ShellAt 0 m sh
EvalAt m _ = Unit {0}

finish-EvalAt : (m prev : SigSet) (w : Wait) → m ≡ prev → Ended w → EvalAt prev (finish m w)
finish-EvalAt m prev (done sh) e h = (IsValid-mask sh.jobs m h.0, h.1, e)
finish-EvalAt m prev (waiting sh) e h = tt

pub eval-Every :
    (m : SigSet) (jid0 pid0 pid : ℤ) (ds : List Delivery) (c : Command) (cmdline : List ℕ)
    (sh : Shell)
    → ShellAt 0 m sh
    → Every (EvalAt m) (eval jid0 pid0 pid ds c cmdline sh)
unfolding eval
eval-Every m jid0 pid0 pid ds empty cmdline sh h = h
eval-Every m jid0 pid0 pid ds invalid cmdline sh h = h
eval-Every m jid0 pid0 pid ds quit cmdline sh h = tt
eval-Every m jid0 pid0 pid ds jobs_command cmdline sh h =
    Every-then (EvalAt m) (list_jobs (λ job. true) (set_mask all_blocked sh).jobs (pos 1)) _
      (λ lines. h)
eval-Every m jid0 pid0 pid ds (external state) cmdline sh h =
    let m' = sh.jobs.currmask in
    let held : ShellAt 0 all_blocked (set_mask all_blocked sh) =
      (IsValid-mask sh.jobs all_blocked h.0, h.1, refl) in
    Every-bind Ended (EvalAt m) (start_job m' ds pid state cmdline (set_mask all_blocked sh)) _
      (start_job-Every m' ds pid state cmdline (set_mask all_blocked sh) held)
      (λ w e. finish-EvalAt m' m w h.2 e)
eval-Every m jid0 pid0 pid ds (back_fore flag target) cmdline sh h =
    let m' = sh.jobs.currmask in
    let held : ShellAt 0 all_blocked (set_mask all_blocked sh) =
      (IsValid-mask sh.jobs all_blocked h.0, h.1, refl) in
    Every-bind Ended (EvalAt m)
      (builtin_back_fore jid0 pid0 m' ds flag target (set_mask all_blocked sh)) _
      (builtin_back_fore-Every jid0 pid0 m' ds flag target (set_mask all_blocked sh) held)
      (λ w e. finish-EvalAt m' m w h.2 e)

-- The loop of the shell: the list is set up, and then command lines are evaluated and signals
-- handled, in any order, whatever the calls of the system return. `m` is the mask outside of all
-- critical sections.
pub data Reachable (m : SigSet) : Shell → Type 0 where
  started_with :
      (s : Jobs) (sent : List (ℤ × Signal)) (printed : List Message)
      → s.currmask ≡ m
      → Reachable m (record { jobs = init_job_list s; sent = sent; printed = printed })
  line :
      (sscanf : Scanner) (jid0 pid0 pid : ℤ) (ds : List Delivery) (cmdline : Text) (sh sh' : Shell)
      → Reachable m sh
      → eval_line sscanf jid0 pid0 pid ds cmdline sh ≡ ok (returned sh')
      → Reachable m sh'
  signal :
      (d : Delivery) (sh sh' : Shell) → Reachable m sh → deliver sh d ≡ ok sh' → Reachable m sh'

Every-ok : {A : Type 0} (P : A → Type 0) (o : Outcome A) (x : A) → Every P o → o ≡ ok x → P x
Every-ok P o x h e = subst (Every P) e h

count_fg-init_job_list : (s : Jobs) → count_fg (init_job_list s).job_list ≡ 0
unfolding count_fg init_job_list
count_fg-init_job_list s = refl

Reachable-At : (m : SigSet) (sh : Shell) → Reachable m sh → ShellAt 0 m sh
unfolding eval_line init_job_list
Reachable-At m _ (started_with s sent printed e) =
    (init_job_list-IsValid s, omega (arith, count_fg-init_job_list s), e)
Reachable-At m _ (line sscanf jid0 pid0 pid ds cmdline sh sh' r e) =
    Every-ok (EvalAt m) (eval_line sscanf jid0 pid0 pid ds cmdline sh) (returned sh')
      (eval-Every m jid0 pid0 pid ds (command_of sscanf (parseline (some cmdline))) cmdline sh
        (Reachable-At m sh r))
      e
Reachable-At m _ (signal d sh sh' r e) =
    Every-ok (ShellAt 0 m) (deliver sh d) sh' (deliver-Every 0 m sh d (Reachable-At m sh r)) e

-- Whenever the shell is back in its loop, after any command lines and any signals, handled between
-- two lines or during a wait, and whatever fork, waitpid and sscanf return: the job list is valid,
-- so that its live jobs have their own numbers and positive pids, no job is in the foreground, and
-- the signal mask is the one that the shell started with.
pub Reachable-IsValid :
    (m : SigSet) (sh : Shell)
    → Reachable m sh
    → IsValid sh.jobs × (count_fg sh.jobs.job_list ≡ 0) × (sh.jobs.currmask ≡ m)
Reachable-IsValid m sh r = let (v, few, mask) = Reachable-At m sh r in (v, omega arith, mask)
