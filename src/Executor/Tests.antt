-- ===== src/Executor/Tests.antt =====
-- Runs of the executor.
use cpp_freshman.Prelude.{true, false, some, List, [], ◌∷◌, ◌≡◌, refl}
use cpp_freshman.Executor.{
  Work, vertex_work, closure_work, Moment, calls_vertex, calls_closure, thread_runs, Executor,
  executor_run,
}
use cpp_freshman.Executor.Balance.{
  IsBalanced, occurrences, all_handed, total, no_work, executor_run-IsBalanced,
}

-- A vertex and a callback are handed over, a vertex whose thread does not start, and the first
-- thread runs.
abbrev moments : List Moment
moments =
    calls_vertex true 5 50 ∷ calls_closure true 6 60 ∷ calls_vertex false 7 70 ∷ thread_runs 0 ∷ []

executor_run_threads :
    executor_run moments no_work
    ≡ some record {
      threads = record {
        heap = (record { address = 1; content = closure_work 6 60 }) ∷ [];
        next = 3;
        waiting = 1 ∷ [];
        invoked = vertex_work 5 50 ∷ [];
      };
      refused = vertex_work 7 70 ∷ [];
    }
unfolding executor_run
executor_run_threads = refl

executor_run-IsBalanced_example :
    (t : Executor) × (executor_run moments no_work ≡ some t)
    × IsBalanced t.threads
    × ((w : Work) → occurrences w (all_handed moments) ≡ total w t)
executor_run-IsBalanced_example = executor_run-IsBalanced moments
