-- ===== src/Executor.antt =====
-- example/babylon/bthread_graph_executor.cpp, of which example/brpc/plugins/framework/ has a copy:
-- work is handed to a new thread in a tuple on the heap, which the thread deletes.
pub mod Balance
pub mod Tests
use cpp_freshman.Prelude.{
  ℕ, ◌+◌, Bool, true, false, ◌||◌, ◌==◌, Option, none, some, List, [], ◌∷◌, ◌++◌, if◌then◌else◌,
}

-- The tuples: a vertex with its closure, and a closure context with a callback, by their addresses.
pub data Work : Type 0 where
  vertex_work : ℕ → ℕ → Work
  closure_work : ℕ → ℕ → Work

-- A tuple on the heap.
pub record Param : Type 0 where
  pub address : ℕ
  pub content : Work

-- The tuples that live, the address that `new` gives next, the threads that have not run by the
-- address of their argument, and what the threads have run.
pub record Threads : Type 0 where
  pub heap : List Param
  pub next : ℕ
  pub waiting : List ℕ
  pub invoked : List Work

abbrev pub no_threads : Threads
no_threads = record { heap = []; next = 0; waiting = []; invoked = [] }

abbrev pub find_param : ℕ → List Param → Option Work
find_param a [] = none
find_param a (p ∷ ps) = if p.address == a then some p.content else find_param a ps

abbrev pub drop_param : ℕ → List Param → List Param
drop_param a [] = []
drop_param a (p ∷ ps) = let rest = drop_param a ps in if p.address == a then ps else p ∷ rest

abbrev pub drop_thread : ℕ → List ℕ → List ℕ
drop_thread a [] = []
drop_thread a (b ∷ bs) = let rest = drop_thread a bs in if b == a then bs else b ∷ rest

-- `new std::tuple<…>(…)`, at the address `next`.
unfoldable pub new_param : Work → Threads → Threads
new_param w s = record s {
  heap = (record { address = s.next; content = w }) ∷ s.heap;
  next = s.next + 1;
}

-- `delete param`; a tuple that does not live is a double free, which is undefined.
unfoldable pub delete_param : ℕ → Threads → Option Threads
delete_param a s = elim (find_param a s.heap) [
  | none ↦ none
  | some w ↦ some record s { heap = drop_param a s.heap }
]

-- `bthread_start_background` that succeeds: the thread will run with the argument.
abbrev pub start_background : ℕ → Threads → Threads
start_background a s = record s { waiting = a ∷ s.waiting }

-- `execute_invoke_vertex` and `execute_invoke_closure`: the thread at this argument runs what the
-- tuple holds, and deletes it. A tuple that does not live is read after it was deleted.
unfoldable pub execute_invoke : ℕ → Threads → Option Threads
unfolding delete_param
execute_invoke a s = elim (find_param a s.heap) [
  | none ↦ none
  | some w ↦
      delete_param a (record s { waiting = drop_thread a s.waiting; invoked = s.invoked ++ w ∷ [] })
]

-- What a call leaves: the work that is still the caller's, which is there where it answers -1, and
-- the threads. For a vertex this is its closure, which is moved into the tuple and, where the start
-- fails, back.
pub record Handed : Type 0 where
  pub ret_failed : Bool
  pub left : Option Work
  pub threads : Threads

unfoldable pub run_vertex : Bool → ℕ → ℕ → Threads → Option Handed
unfolding new_param delete_param
run_vertex started vertex closure s =
    let param = s.next in
    let s = new_param (vertex_work vertex closure) s in
    if started
    then some record { ret_failed = false; left = none; threads = start_background param s }
    else elim (find_param param s.heap) [
      | none ↦ none
      | some moved ↦ elim (delete_param param s) [
        | none ↦ none
        | some s ↦ some record { ret_failed = true; left = some moved; threads = s }
      ]
    ]

unfoldable pub run_closure : Bool → ℕ → ℕ → Threads → Option Handed
unfolding new_param delete_param
run_closure started closure callback s =
    let param = s.next in
    let s = new_param (closure_work closure callback) s in
    if started
    then some record { ret_failed = false; left = none; threads = start_background param s }
    else elim (delete_param param s) [
      | none ↦ none
      | some s ↦
          some
            record { ret_failed = true; left = some (closure_work closure callback); threads = s }
    ]

-- What happens, in any order: calls, with the result of the start, and threads that run.
pub data Moment : Type 0 where
  calls_vertex : Bool → ℕ → ℕ → Moment
  calls_closure : Bool → ℕ → ℕ → Moment
  thread_runs : ℕ → Moment

abbrev pub is_waiting : ℕ → List ℕ → Bool
is_waiting a [] = false
is_waiting a (b ∷ bs) = b == a || is_waiting a bs

pub record Executor : Type 0 where
  pub threads : Threads
  pub refused : List Work

abbrev pub take_back : Option Work → List Work → List Work
take_back none refused = refused
take_back (some w) refused = refused ++ w ∷ []

abbrev pub after_call : List Work → Option Handed → Option Executor
after_call refused none = none
after_call refused (some h) =
    some record { threads = h.threads; refused = take_back h.left refused }

-- One moment; a thread that does not wait cannot run.
unfoldable pub executor_step : Moment → Executor → Option Executor
unfolding run_vertex run_closure execute_invoke
executor_step (calls_vertex started v c) s = after_call s.refused (run_vertex started v c s.threads)
executor_step (calls_closure started c b) s =
    after_call s.refused (run_closure started c b s.threads)
executor_step (thread_runs a) s =
    if is_waiting a s.threads.waiting
    then (elim (execute_invoke a s.threads) [
      | none ↦ none
      | some t ↦ some record s { threads = t }
    ])
    else some s

unfoldable pub executor_run : List Moment → Executor → Option Executor
unfolding executor_step
executor_run [] s = some s
executor_run (m ∷ ms) s = elim (executor_step m s) [ none ↦ none | some t ↦ executor_run ms t ]
