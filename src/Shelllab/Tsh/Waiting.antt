-- ===== src/Shelllab/Tsh/Waiting.antt =====
-- The loop of shelllab/tsh.c that waits for the foreground job to end or stop.
use introduction_to_computer.Common.{
  ℕ, ◌-◌, ◌≡◌, ◌≢◌, refl, ap, inl, inr, List, [], ◌∷◌, true, arith, get_or, ltb, ℕ-cases, ◌∙◌,
}
use introduction_to_computer.Shelllab.Jobs.{no_job, Jobs, SigSet, pos, ok, fg_job}
use introduction_to_computer.Shelllab.Jobs.Table.{count_fg, count_fg-pos}
use introduction_to_computer.Shelllab.Jobs.Invariant.{IsValid, Blocked}
use introduction_to_computer.Shelllab.Jobs.States.{fg_job_lem}
use introduction_to_computer.Shelllab.Tsh.{
  Signal, Shell, kill_group, set_mask, all_blocked, Status, forward, Delivery, child, deliver, Wait,
  done, waiting, wait_fg, interrupt, suspend, sigint, sigtstp, sigint_handler, sigtstp_handler,
}
use introduction_to_computer.Shelllab.Tsh.Reap.{
  IsValid-mask, KnownAll, reaped_all, sigchld_handler_lem,
}
use introduction_to_computer.Shelllab.Tsh.Signals.{forward_lem}

-- The list with the three signals blocked, and so after the reports that a SIGCHLD brings.
abbrev pub masked : Jobs → Jobs
masked s = record s { currmask = all_blocked }

abbrev pub after_reports : Jobs → List (ℕ × Status) → Jobs
after_reports s events = masked (reaped_all (masked s) events)

-- Among the signals that arrive, none reports a stopped process that has no job by then.
abbrev pub KnownDeliveries : Jobs → List Delivery → Type 0
KnownDeliveries s [] = Unit {0}
KnownDeliveries s (child events ∷ ds) =
    KnownAll (masked s) events × KnownDeliveries (after_reports s events) ds
KnownDeliveries s (_ ∷ ds) = KnownDeliveries s ds

-- What the loop ends with: no job in the foreground, or one that is still there. (A shell in the
-- middle of the loop has the three signals blocked.)
abbrev pub Waited : Wait → Type 0
Waited (done sh) =
    IsValid sh.jobs × (sh.jobs.currmask ≡ all_blocked) × (count_fg sh.jobs.job_list ≡ 0)
Waited (waiting sh) =
    IsValid sh.jobs × (sh.jobs.currmask ≡ all_blocked) × (count_fg sh.jobs.job_list ≡ 1)

pub Blocked-all : (s : Jobs) → s.currmask ≡ all_blocked → Blocked s
Blocked-all s e = rw e (refl, refl, refl)

forwarded :
    (sig : Signal) (prev : SigSet) (sh : Shell)
    → IsValid sh.jobs
    → sh.jobs.currmask ≡ all_blocked
    → (sh' : Shell) × (forward sig (set_mask prev sh) ≡ ok sh')
      × IsValid sh'.jobs
      × (masked sh'.jobs ≡ sh.jobs)
forwarded sig prev sh v mask =
    let v' = IsValid-mask sh.jobs prev v in
    elim (forward_lem sig (set_mask prev sh) v') [
      | inl (nobody, e) ↦ (set_mask prev sh, e, v', ground arith)
      | inr (jid, there, is, e) ↦ (
        kill_group (pos (get_or sh.jobs.job_list (jid - 1) no_job).pid) sig (set_mask prev sh),
        e,
        v',
        ground arith,
      )
    ]

-- The loop over the signals `d ∷ ds` runs the handler of `d` if a job is in the foreground.
wait_fg_step :
    (prev : SigSet) (d : Delivery) (ds : List Delivery) (sh sh' : Shell)
    → IsValid sh.jobs
    → sh.jobs.currmask ≡ all_blocked
    → count_fg sh.jobs.job_list ≢ 0
    → deliver (set_mask prev sh) d ≡ ok sh'
    → wait_fg prev (d ∷ ds) sh ≡ wait_fg prev ds (set_mask all_blocked sh')
unfolding wait_fg
wait_fg_step prev d ds sh sh' v mask some_fg e =
    let (jid, found, what) = fg_job_lem sh.jobs v (Blocked-all sh.jobs mask) in
    elim what [
      | inl (z, nobody) ↦ absurd (some_fg nobody)
      | inr (there, is) ↦
          let large : ltb 0 jid ≡ true = ground arith in
          rw (found, large) (rw e (ap (λ m. wait_fg prev ds (set_mask m sh')) mask))
    ]

pub wait_fg_end :
    (prev : SigSet) (ds : List Delivery) (sh : Shell)
    → IsValid sh.jobs
    → sh.jobs.currmask ≡ all_blocked
    → count_fg sh.jobs.job_list ≡ 0
    → wait_fg prev ds sh ≡ ok (done sh)
unfolding wait_fg
wait_fg_end prev ds sh v mask nobody =
    let (jid, found, what) = fg_job_lem sh.jobs v (Blocked-all sh.jobs mask) in
    elim what [
      | inl (z, _) ↦ ended prev ds sh (found ∙ ap ok z)
      | inr (there, is) ↦ absurd (omega (arith, count_fg-pos (jid - 1) sh.jobs.job_list is))
    ]
  where
    ended :
        (prev : SigSet) (ds : List Delivery) (sh : Shell)
        → fg_job sh.jobs ≡ ok 0
        → wait_fg prev ds sh ≡ ok (done sh)
    ended prev [] sh e = rw e
    ended prev (d ∷ ds) sh e = rw e

pub wait_fg-nil :
    (prev : SigSet) (sh : Shell)
    → IsValid sh.jobs
    → sh.jobs.currmask ≡ all_blocked
    → count_fg sh.jobs.job_list ≢ 0
    → wait_fg prev [] sh ≡ ok (waiting sh)
unfolding wait_fg
wait_fg-nil prev sh v mask some_fg =
    let (jid, found, what) = fg_job_lem sh.jobs v (Blocked-all sh.jobs mask) in
    elim what [
      | inl (z, nobody) ↦ absurd (some_fg nobody)
      | inr (there, is) ↦ let large : ltb 0 jid ≡ true = ground arith in rw (found, large)
    ]

Delivered-all :
    (prev : SigSet) (d : Delivery) (ds : List Delivery) (sh : Shell)
    → IsValid sh.jobs
    → sh.jobs.currmask ≡ all_blocked
    → KnownDeliveries sh.jobs (d ∷ ds)
    → (sh' : Shell) × (deliver (set_mask prev sh) d ≡ ok sh')
      × IsValid sh'.jobs
      × KnownDeliveries (masked sh'.jobs) ds
unfolding deliver sigint_handler sigtstp_handler
Delivered-all prev (child events) ds sh v mask known =
    let (sh', e, v', same, sent) =
      sigchld_handler_lem (set_mask prev sh) events (IsValid-mask sh.jobs prev v) known.0 in
    let next : masked sh'.jobs ≡ after_reports sh.jobs events = ap masked same in
    (sh', e, v', rw next known.1)
Delivered-all prev interrupt ds sh v mask known =
    let (sh', e, v', same) = forwarded sigint prev sh v mask in (sh', e, v', rw same known)
Delivered-all prev suspend ds sh v mask known =
    let (sh', e, v', same) = forwarded sigtstp prev sh v mask in (sh', e, v', rw same known)

-- With a valid list and the signals blocked, over any signals that arrive in which no process is
-- reported as stopped without a job: the loop never ends the shell, it goes on exactly while a
-- job is in the foreground, and when it ends no job is. The list stays valid throughout.
pub wait_fg_lem :
    (prev : SigSet) (ds : List Delivery) (sh : Shell)
    → IsValid sh.jobs
    → sh.jobs.currmask ≡ all_blocked
    → KnownDeliveries sh.jobs ds
    → (w : Wait) × (wait_fg prev ds sh ≡ ok w) × Waited w
wait_fg_lem prev [] sh v mask known = elim (ℕ-cases (count_fg sh.jobs.job_list)) [
  | inl nobody ↦ (done sh, wait_fg_end prev [] sh v mask nobody, (v, mask, nobody))
  | inr (n, e) ↦ (
    waiting sh,
    wait_fg-nil prev sh v mask (λ z. absurd (omega arith)),
    (v, mask, omega (arith, v.one_fg)),
  )
]
wait_fg_lem prev (d ∷ ds) sh v mask known =
    let (sh', e, v', known') = Delivered-all prev d ds sh v mask known in
    let (w, run, end) =
      wait_fg_lem prev ds (set_mask all_blocked sh') (IsValid-mask sh'.jobs all_blocked v') refl
        known' in
    elim (ℕ-cases (count_fg sh.jobs.job_list)) [
      | inl nobody ↦ (done sh, wait_fg_end prev (d ∷ ds) sh v mask nobody, (v, mask, nobody))
      | inr (n, some_fg) ↦
          (w, wait_fg_step prev d ds sh sh' v mask (λ z. absurd (omega arith)) e ∙ run, end)
    ]
