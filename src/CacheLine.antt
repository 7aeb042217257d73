-- ===== src/CacheLine.antt =====
-- Threads that count: example/performance_units/debug_cache_line.cpp, and the sum of two threads in
-- `main` of example/protobuf/main.cpp. A counter is an `std::atomic<int>` at an address; each access
-- to it is one step, and the turns of the threads are a list.
pub mod Runs
pub mod Lines
pub mod Tests
use Prim.Native.Nat.{zero, suc}
use cpp_freshman.Prelude.{
  ℕ, ◌+◌, ◌%◌, ◌^◌, Bool, true, false, Option, none, some, List, [], ◌∷◌, ltb, ◌==◌, if◌then◌else◌,
}

-- The atomic counters by their addresses. An `int` is its 32 bits.
abbrev pub Cells : Type 0
Cells = ℕ → ℕ

abbrev pub put : Cells → ℕ → ℕ → Cells
put m a v x = if x == a then v else m x

-- Where a thread is in its loop: before the test of `i`, before the increment of the counter,
-- before `++i`, or at the end.
pub data Pc : Type 0 where
  at_test : ℕ → Pc
  at_count : ℕ → Pc
  at_next : ℕ → Pc
  at_end : Pc

-- One step of `work(counter, iterations)`.
unfoldable pub work_step : ℕ → ℕ → Pc → Cells → Pc × Cells
work_step counter iterations (at_test i) m = (if ltb i iterations then at_count i else at_end, m)
work_step counter iterations (at_count i) m = (at_next i, put m counter ((m counter + 1) % 2 ^ 32))
work_step counter iterations (at_next i) m = (at_test (i + 1), m)
work_step counter iterations at_end m = (at_end, m)

pub data Turn : Type 0 where
  first_turn second_turn : Turn

-- Two threads, and the memory that they share.
pub record Threads : Type 0 where
  pub cells : Cells
  pub first : Pc
  pub second : Pc

abbrev pub threads_start : Cells → Threads
threads_start m = record { cells = m; first = at_test 0; second = at_test 0 }

-- The counters of the two threads, and how often each counts.
module _ (a b n k : ℕ) where
  unfoldable pub threads_step : Turn → Threads → Threads
  unfolding work_step
  threads_step first_turn s =
      let (p, m) = work_step a n s.first s.cells in record s { cells = m; first = p }
  threads_step second_turn s =
      let (p, m) = work_step b k s.second s.cells in record s { cells = m; second = p }

  unfoldable pub threads_run : List Turn → Threads → Threads
  unfolding threads_step
  threads_run [] s = s
  threads_run (t ∷ ts) s = threads_run ts (threads_step t s)

-- What follows both calls of `join`, which wait for the end of their thread.
abbrev pub both_end : Pc → Pc → Bool
both_end at_end at_end = true
both_end p q = false

abbrev pub joined : {A : Type 0} → Threads → A → Option A
joined s x = if both_end s.first s.second then some x else none

-- The addresses of `FalseSharingData` and of `AlignedData`, whose members have the alignment 64.
abbrev pub false_sharing_counter2 : ℕ → ℕ
false_sharing_counter2 data_at = data_at + 4

abbrev pub aligned_counter2 : ℕ → ℕ
aligned_counter2 data_at = data_at + 64

-- The two counters at the end, where `data` is at the address.
unfoldable pub false_sharing_example : ℕ → Cells → ℕ → List Turn → Option (ℕ × ℕ)
unfolding threads_run
false_sharing_example data_at m iterations ts =
    let counter1 = data_at in
    let counter2 = false_sharing_counter2 data_at in
    let s =
      threads_run counter1 counter2 iterations iterations ts
        (threads_start (put (put m counter1 0) counter2 0)) in
    joined s (s.cells counter1, s.cells counter2)

unfoldable pub no_false_sharing_example : ℕ → Cells → ℕ → List Turn → Option (ℕ × ℕ)
unfolding threads_run
no_false_sharing_example data_at m iterations ts =
    let counter1 = data_at in
    let counter2 = aligned_counter2 data_at in
    let s =
      threads_run counter1 counter2 iterations iterations ts
        (threads_start (put (put m counter1 0) counter2 0)) in
    joined s (s.cells counter1, s.cells counter2)

-- The two threads of example/protobuf/main.cpp, which add to one `sum`.
unfoldable pub sum_threads : ℕ → Cells → ℕ → List Turn → Option ℕ
unfolding threads_run
sum_threads sum_at m rounds ts =
    let s = threads_run sum_at sum_at rounds rounds ts (threads_start (put m sum_at 0)) in
    joined s (s.cells sum_at)
