-- ===== src/Shelllab/Tsh/Line.antt =====
-- `eval` of shelllab/tsh.c on the text of a command line: what it makes of the tokens that
-- `parseline` returns. The two calls of `sscanf` are arguments.
use introduction_to_computer.Common.{
  ℕ, ◌≤◌, ◌<◌, ◌≡◌, List, [], ◌∷◌, ◌++◌, Option, none, some, Bool, true, false, length, ◌==◌,
  if◌then◌else◌,
}
use introduction_to_computer.Shelllab.Jobs.{JobState, fg, bg, max_jobs, ℤ, pos, Outcome, ok}
use introduction_to_computer.Shelllab.Jobs.Table.{count_fg}
use introduction_to_computer.Shelllab.Jobs.Invariant.{IsValid}
use introduction_to_computer.Shelllab.Jobs.Add.{added}
use introduction_to_computer.Shelllab.Parse.{
  Text, BuiltinState, builtin_none, builtin_quit, builtin_jobs, builtin_bg, builtin_fg,
  ParselineReturn, parseline_fg, parseline_bg, parseline_empty, parseline_error, parseline,
  builtin_of, max_line,
}
use introduction_to_computer.Shelllab.Parse.RoundTrip.{Part, print, IsLine}
use introduction_to_computer.Shelllab.Parse.Commands.{
  arguments, no_tokens, Plain, ampersand, parseline-print,
}
use introduction_to_computer.Shelllab.Tsh.{
  Shell, Delivery, Scan, Target, job_id, process_id, Command, empty, invalid, external, quit,
  back_fore, jobs_command, Eval, eval, finish, wait_fg, with_jobs, Wait, returned, started,
}
use introduction_to_computer.Shelllab.Tsh.Reap.{pid_jid}
use introduction_to_computer.Shelllab.Tsh.Waiting.{masked, KnownDeliveries, Waited}
use introduction_to_computer.Shelllab.Tsh.Builtins.{eval_foreground, eval_background}

-- What `sscanf` with `"%%%d"` and with `"%d"` makes of a word.
pub record Scanner : Type 0 where
  pub job_number : Text → Scan
  pub number : Text → Scan

abbrev pub starts_percent : Text → Bool
starts_percent [] = false
starts_percent (c ∷ cs) = c == b'%'

-- `token.argv[1]`
unfoldable pub target_of : Scanner → List Text → Option Target
target_of sscanf (name ∷ arg ∷ args) =
    some (
      if starts_percent arg then job_id (sscanf.job_number arg) else process_id (sscanf.number arg))
target_of sscanf _ = none

unfoldable pub builtin_command : Scanner → JobState → BuiltinState → List Text → Command
unfolding target_of
builtin_command sscanf state builtin_none argv = external state
builtin_command sscanf state builtin_quit argv = quit
builtin_command sscanf state builtin_bg argv = back_fore true (target_of sscanf argv)
builtin_command sscanf state builtin_fg argv = back_fore false (target_of sscanf argv)
builtin_command sscanf state builtin_jobs argv = jobs_command

unfoldable pub command_of : Scanner → ParselineReturn → Command
unfolding builtin_command
command_of sscanf parseline_error = invalid
command_of sscanf parseline_empty = empty
command_of sscanf (parseline_fg t) = builtin_command sscanf fg t.builtin t.argv
command_of sscanf (parseline_bg t) = builtin_command sscanf bg t.builtin t.argv

unfoldable pub eval_line :
    Scanner → (jid0 pid0 pid : ℤ) → List Delivery → Text → Shell → Outcome Eval
unfolding command_of eval parseline
eval_line sscanf jid0 pid0 pid ds cmdline sh =
    eval jid0 pid0 pid ds (command_of sscanf (parseline (some cmdline))) cmdline sh

abbrev pub state_of : Bool → JobState
state_of false = fg
state_of true = bg

-- The text of a line that runs the program of its first word.
abbrev pub line_of : List Part → Bool → Text
line_of ps background = print (ps ++ ampersand background)

pub command_of-line :
    (sscanf : Scanner) (ps : List Part) (background : Bool) (w : Text) (ws : List Text)
    → IsLine no_tokens (ps ++ ampersand background)
    → length (line_of ps background) < max_line
    → arguments ps ≡ w ∷ ws
    → Plain (w ∷ ws)
    → builtin_of w ≡ builtin_none
    → command_of sscanf (parseline (some (line_of ps background))) ≡ external (state_of background)
unfolding command_of builtin_command
command_of-line sscanf ps false w ws h short e plain external_word =
    rw (parseline-print ps false w ws h short e plain) (rw external_word)
command_of-line sscanf ps true w ws h short e plain external_word =
    rw (parseline-print ps true w ws h short e plain) (rw external_word)

-- A command line without an ampersand, written out from arguments and redirections as for
-- `parseline`, whose first word is no builtin: with a valid list that has room and no foreground
-- job, a successful fork and any signals that arrive in which no process is reported as stopped
-- without a job, `eval` on its text ends as the wait ends that starts on the list with a new
-- foreground job of that text and of the process of the fork: it either still waits for a job in
-- the foreground or has returned, with no job in the foreground.
pub eval_line_foreground :
    (sscanf : Scanner) (jid0 pid0 : ℤ) (pid : ℕ) (ds : List Delivery) (sh : Shell) (ps : List Part)
    (w : Text) (ws : List Text)
    → IsLine no_tokens (ps ++ ampersand false)
    → length (line_of ps false) < max_line
    → arguments ps ≡ w ∷ ws
    → Plain (w ∷ ws)
    → builtin_of w ≡ builtin_none
    → IsValid sh.jobs
    → count_fg sh.jobs.job_list ≡ 0
    → 0 < pid
    → sh.jobs.nextjid ≤ max_jobs
    → KnownDeliveries (added (masked sh.jobs) pid fg (line_of ps false)) ds
    → (v : Wait) × (wait_fg sh.jobs.currmask ds
          (with_jobs sh (added (masked sh.jobs) pid fg (line_of ps false)))
        ≡ ok v)
      × (eval_line sscanf jid0 pid0 (pos pid) ds (line_of ps false) sh
          ≡ ok (finish sh.jobs.currmask v))
      × Waited v
unfolding eval_line
eval_line_foreground sscanf jid0 pid0 pid ds sh ps w ws h short e plain program v nobody p room
      known =
    rw (command_of-line sscanf ps false w ws h short e plain program)
      (eval_foreground jid0 pid0 pid ds (line_of ps false) sh v nobody p room known)

-- The same with an ampersand at the end, with no job of that pid: `eval` on the text adds a
-- background job with that text and reports its number, waits for nothing and restores the mask.
pub eval_line_background :
    (sscanf : Scanner) (jid0 pid0 : ℤ) (pid : ℕ) (ds : List Delivery) (sh : Shell) (ps : List Part)
    (w : Text) (ws : List Text)
    → IsLine no_tokens (ps ++ ampersand true)
    → length (line_of ps true) < max_line
    → arguments ps ≡ w ∷ ws
    → Plain (w ∷ ws)
    → builtin_of w ≡ builtin_none
    → IsValid sh.jobs
    → 0 < pid
    → sh.jobs.nextjid ≤ max_jobs
    → pid_jid sh.jobs pid ≡ 0
    → (eval_line sscanf jid0 pid0 (pos pid) ds (line_of ps true) sh
        ≡ ok (
            returned (record {
              jobs = added sh.jobs pid bg (line_of ps true);
              sent = sh.sent;
              printed = started sh.jobs.nextjid (pos pid) (line_of ps true) ∷ sh.printed;
            })))
      × IsValid (added sh.jobs pid bg (line_of ps true))
unfolding eval_line
eval_line_background sscanf jid0 pid0 pid ds sh ps w ws h short e plain program v p room absent =
    rw (command_of-line sscanf ps true w ws h short e plain program)
      (eval_background jid0 pid0 pid ds (line_of ps true) sh v p room absent)
