-- ===== src/Proxylab/Threads/Tests.antt =====
-- The theorems on the threads of proxylab/proxy.c at concrete inputs.
use introduction_to_computer.Common.{ℕ, ◌≡◌, refl, true, false}
use introduction_to_computer.Proxylab.Threads.{
  Stage, fetching, relocking, adding, spinning, finished, pass, leave, miss, received, take_to_add,
  makes_no_room, init_fails, World, inside, Reachable, here, later, start, locking, move,
  initialize, take, take_to_search, searching,
}
use introduction_to_computer.Proxylab.Threads.Exclusion.{
  Exclusive, Reachable-Exclusive, both_inside,
}

-- Thread 3 waits for the lock, and then has it.
abbrev waiting : World
waiting = record { stage = move 3 locking start.stage; locked = false }

abbrev holding : World
holding = record { stage = move 3 searching waiting.stage; locked = true }

abbrev holding-Reachable : Reachable start holding
holding-Reachable =
    later (later here (initialize start 3 refl)) (take waiting 3 refl take_to_search)

Reachable-Exclusive_example : Exclusive holding
Reachable-Exclusive_example = Reachable-Exclusive holding-Reachable (refl, tt)

both_inside_example :
    (w : World) × Reachable start w × (inside (w.stage 0) ≡ true) × (inside (w.stage 1) ≡ true)
both_inside_example = both_inside 0 1 (λ e. cc e)

-- Thread 3 from its start to the loop that does not end.
abbrev moved : Stage → (ℕ → Stage) → ℕ → Stage
moved s stage = move 3 s stage

abbrev endless_loop : World
endless_loop = record {
  stage =
      moved spinning
        (moved adding (moved relocking (moved fetching (moved searching waiting.stage))));
  locked = true;
}

abbrev endless_loop-Reachable : Reachable start endless_loop
endless_loop-Reachable =
    let missed : World = record { stage = moved fetching holding.stage; locked = false } in
    let got : World = record { stage = moved relocking missed.stage; locked = false } in
    let in_add : World = record { stage = moved adding got.stage; locked = true } in
    later
      (later (later (later holding-Reachable (leave holding 3 miss)) (pass missed 3 received))
        (take got 3 refl take_to_add))
      (pass in_add 3 makes_no_room)

-- Thread 5 gives up at once.
abbrev given_up : World
given_up = record { stage = move 5 finished endless_loop.stage; locked = true }

abbrev given_up-Reachable : Reachable endless_loop given_up
given_up-Reachable = later here (pass endless_loop 5 init_fails)
