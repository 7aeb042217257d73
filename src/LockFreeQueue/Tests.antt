-- ===== src/LockFreeQueue/Tests.antt =====
-- Runs of `LockFreeQueue` at concrete schedules.
use cpp_freshman.Prelude.{ℕ, List, [], ◌∷◌, ◌≡◌, refl}
use cpp_freshman.LockFreeQueue.{
  Event, call_input, return_input, call_output, return_output, Call, input, output, step, call,
  swap_tail, create, start, execute,
}
use cpp_freshman.LockFreeQueue.Atomic.{Shows, new}
use cpp_freshman.LockFreeQueue.Runs.{StandsFor, execute-Shows}
use cpp_freshman.LockFreeQueue.Progress.{Finishes, execute-Finishes}

-- Thread 3 loses the race for the first node to thread 1 and moves `tail` on for it.
abbrev race : List (ℕ × Call ℕ)
race =
    (1, input 7)
    ∷ (3, input 8)
    ∷ (1, output)
    ∷ (3, output)
    ∷ (1, output)
    ∷ (3, output)
    ∷ (1, output)
    ∷ (3, output)
    ∷ (3, output)
    ∷ (3, output)
    ∷ (3, output)
    ∷ (3, output)
    ∷ (3, output)
    ∷ (3, output)
    ∷ (3, output)
    ∷ (1, output)
    ∷ (3, output)
    ∷ (2, output)
    ∷ (2, output)
    ∷ (2, output)
    ∷ (2, output)
    ∷ (2, output)
    ∷ []

abbrev race_events : List (Event ℕ)
race_events =
    call_input 1 7
    ∷ call_input 3 8
    ∷ return_input 1
    ∷ return_input 3
    ∷ call_output 2
    ∷ return_output 2 7
    ∷ []

race-execute : (execute 0 race (start 0)).1 ≡ race_events
unfolding execute step call swap_tail create start
race-execute = refl

execute-Shows_example : Shows 0 (StandsFor (execute 0 race (start 0)).0) new race_events
unfolding execute step call swap_tail create start
execute-Shows_example = execute-Shows 0 race

-- Thread 3 stands before the compare-and-swap that moves `tail` on, and thread 1 before its last.
abbrev linked_once : List (ℕ × Call ℕ)
linked_once =
    (1, input 7)
    ∷ (1, output)
    ∷ (1, output)
    ∷ (1, output)
    ∷ (3, input 8)
    ∷ (3, output)
    ∷ (3, output)
    ∷ (3, output)
    ∷ []

execute-Finishes_example : Finishes 0 3 output 11 (execute 0 linked_once (start 0)).0
execute-Finishes_example = execute-Finishes 0 linked_once 3 output
