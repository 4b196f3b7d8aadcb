-- ===== src/Shelllab/Tsh/Tests.antt =====
-- Runs of the model of shelllab/tsh.c, and its theorems at concrete inputs.
use introduction_to_computer.Common.{ℕ, ◌≡◌, refl, true, false, List, [], ◌∷◌, some, arith}
use introduction_to_computer.Shelllab.Jobs.{
  fg, bg, st, Jobs, SigSet, pos, ok, stop, init_job_list, find_pid, find_fg,
}
use introduction_to_computer.Shelllab.Jobs.Table.{count_fg}
use introduction_to_computer.Shelllab.Jobs.Invariant.{IsValid, init_job_list-IsValid}
use introduction_to_computer.Shelllab.Jobs.Add.{added, added-IsValid}
use introduction_to_computer.Shelllab.Parse.{Text, is_delim, builtin_of, same_text}
use introduction_to_computer.Shelllab.Parse.RoundTrip.{
  IsWord, is_special, Part, argument, output, bare, quoted,
}
use introduction_to_computer.Shelllab.Tsh.{
  Shell, set_mask, all_blocked, exited, signaled, stopped, Delivery, child, interrupt,
  sigchld_handler, with_jobs, wait_fg, Wait, scanned, process_id, back_fore, returned, eval, finish,
  started, mismatch,
}
use introduction_to_computer.Shelllab.Tsh.Reap.{sigchld_handler_lem, IsValid-mask, reaped_all}
use introduction_to_computer.Shelllab.Tsh.Waiting.{masked, Waited, wait_fg_lem}
use introduction_to_computer.Shelllab.Tsh.Builtins.{unknown_process_stops}
use introduction_to_computer.Shelllab.Tsh.Reachable.{started_with, line, Reachable-IsValid}
use introduction_to_computer.Shelllab.Tsh.Line.{
  Scanner, line_of, eval_line, eval_line_foreground, eval_line_background,
}

abbrev open_mask : SigSet
open_mask = record { sigchld = false; sigint = false; sigtstp = false }

abbrev raw : Jobs
raw = record { init = false; currmask = open_mask; job_list = []; nextjid = 0 }

abbrev ls : List ℕ
ls = b'l' ∷ b's' ∷ []

abbrev quiet : Shell
quiet = record { jobs = init_job_list raw; sent = []; printed = [] }

quiet-IsValid : IsValid quiet.jobs
quiet-IsValid = init_job_list-IsValid raw

-- A shell with a foreground job of process 500.
abbrev busy : Shell
busy = record quiet { jobs = added quiet.jobs 500 fg ls }

busy-IsValid : IsValid busy.jobs
unfolding init_job_list find_fg
busy-IsValid = added-IsValid quiet.jobs 500 fg ls quiet-IsValid refl (omega arith) (omega arith)

-- The same shell with the job stopped.
abbrev paused : Shell
paused = record quiet { jobs = added quiet.jobs 500 st ls }

paused-IsValid : IsValid paused.jobs
unfolding init_job_list
paused-IsValid = added-IsValid quiet.jobs 500 st ls quiet-IsValid refl (omega arith) (omega arith)

sigchld_handler_lem_example :
    (sh' : Shell) × (sigchld_handler busy ((500, stopped 20) ∷ (500, exited) ∷ []) ≡ ok sh')
    × IsValid sh'.jobs
    × (sh'.jobs
        ≡ record (reaped_all
            (set_mask all_blocked busy).jobs
            ((500, stopped 20) ∷ (500, exited) ∷ [])) { currmask = open_mask })
    × (sh'.sent ≡ [])
unfolding init_job_list find_pid
sigchld_handler_lem_example =
    sigchld_handler_lem busy ((500, stopped 20) ∷ (500, exited) ∷ []) busy-IsValid
      ((λ e. absurd (omega (arith, e))), (tt, tt))

abbrev held : Shell
held = set_mask all_blocked busy

-- A signal from the keyboard, and then the child that it ended.
abbrev ctrl_c : List Delivery
ctrl_c = interrupt ∷ child ((500, signaled 2) ∷ []) ∷ []

wait_fg_lem_example : (w : Wait) × (wait_fg open_mask ctrl_c held ≡ ok w) × Waited w
wait_fg_lem_example =
    wait_fg_lem open_mask ctrl_c held (IsValid-mask busy.jobs all_blocked busy-IsValid) refl
      ((tt, tt), tt)

unknown_process_stops_example :
    eval (pos 0) (pos 0) (pos 0) [] (back_fore true (some (process_id (scanned (pos 77))))) ls quiet
    ≡ stop
unfolding init_job_list find_pid
unknown_process_stops_example =
    unknown_process_stops (pos 0) (pos 0) (pos 0) [] true 77 ls quiet quiet-IsValid refl

-- `/bin/ls "a b" > f`
abbrev bin_ls : Text
bin_ls = b'/' ∷ b'b' ∷ b'i' ∷ b'n' ∷ b'/' ∷ b'l' ∷ b's' ∷ []

abbrev a_b : Text
a_b = b'a' ∷ 32 ∷ b'b' ∷ []

abbrev parts : List Part
parts = argument (bare bin_ls) ∷ argument (quoted 34 a_b) ∷ output (bare (b'f' ∷ [])) ∷ []

bin_ls-IsWord : IsWord (bare bin_ls)
bin_ls-IsWord = (refl, (refl, (refl, (refl, (refl, (refl, (refl, (refl, tt))))))))

a_b-IsWord : IsWord (quoted 34 a_b)
a_b-IsWord = (refl, (refl, (refl, (refl, tt))))

letter-IsWord : (c : ℕ) → is_delim c ≡ false → is_special c ≡ false → IsWord (bare (c ∷ []))
letter-IsWord c ink plain = (plain, (ink, tt))

abbrev no_scanner : Scanner
no_scanner = record { job_number = λ w. mismatch; number = λ w. mismatch }

eval_line_foreground_example :
    (v : Wait) × (wait_fg open_mask ctrl_c
        (with_jobs quiet (added (masked quiet.jobs) 500 fg (line_of parts false)))
      ≡ ok v)
    × (eval_line no_scanner (pos 0) (pos 0) (pos 500) ctrl_c (line_of parts false) quiet
        ≡ ok (finish open_mask v))
    × Waited v
unfolding init_job_list count_fg builtin_of same_text
eval_line_foreground_example =
    eval_line_foreground no_scanner (pos 0) (pos 0) 500 ctrl_c quiet parts bin_ls (a_b ∷ [])
      (
        bin_ls-IsWord,
        omega arith,
        (a_b-IsWord, omega arith, (letter-IsWord b'f' refl refl, refl, tt)),
      )
      (omega arith) refl (refl, (refl, tt)) refl quiet-IsValid refl (omega arith) (omega arith)
      ((tt, tt), tt)

-- The shell after that line with an ampersand.
abbrev later : Shell
later = record {
  jobs = added quiet.jobs 500 bg (line_of parts true);
  sent = [];
  printed = started 1 (pos 500) (line_of parts true) ∷ [];
}

later_reached :
    eval_line no_scanner (pos 0) (pos 0) (pos 500) [] (line_of parts true) quiet
    ≡ ok (returned later)
unfolding init_job_list find_pid builtin_of same_text
later_reached =
    (eval_line_background no_scanner (pos 0) (pos 0) 500 [] quiet parts bin_ls (a_b ∷ [])
      (
        bin_ls-IsWord,
        omega arith,
        (
          a_b-IsWord,
          omega arith,
          (letter-IsWord b'f' refl refl, refl, (letter-IsWord b'&' refl refl, omega arith, tt)),
        ),
      )
      (omega arith) refl (refl, (refl, tt)) refl quiet-IsValid (omega arith) (omega arith) refl).0

Reachable-IsValid_example :
    IsValid later.jobs × (count_fg later.jobs.job_list ≡ 0) × (later.jobs.currmask ≡ open_mask)
Reachable-IsValid_example = Reachable-IsValid open_mask later (
    line no_scanner (pos 0) (pos 0) (pos 500) [] (line_of parts true) quiet later
      (started_with raw [] [] refl) later_reached)
