-- ===== src/BoundedQueue.antt =====
-- example/babylon/concurrent/bounded_queue_main.cpp: a thread that puts into a bounded queue, one
-- that would take from it, and `main`. The queue is the library's, and a parameter.
pub mod Hangs
pub mod Tests
use cpp_freshman.Prelude.{
  ℕ, ◌+◌, ◌≤◌, ◌<◌, Bool, true, false, ◌&&◌, not, Option, none, some, List, [], ◌∷◌, ◌++◌, ◌≡◌,
  length, ltb, if◌then◌else◌, Bytes, ascii,
}
use cpp_freshman.Cassandra.{to_string}

-- `ConcurrentBoundedQueue` and what its documentation promises: the oldest text leaves first, a
-- `push` waits while the queue is full, and a `pop` while it is empty. `none` is a call that waits.
pub record BoundedQueue (Q : Type 0) : Type 0 where
  pub reserve_and_clear : ℕ → Q
  pub push : Q → Bytes → Option Q
  pub pop : Q → Option (Bytes × Q)
  pub content : Q → List Bytes
  pub capacity : Q → ℕ
  pub content-reserve_and_clear : (n : ℕ) → content (reserve_and_clear n) ≡ []
  pub push_room :
      (q : Q) (x : Bytes)
      → length (content q) < capacity q
      → (r : Q) × (push q x ≡ some r)
        × (content r ≡ content q ++ x ∷ [])
        × (capacity r ≡ capacity q)
  pub push_full : (q : Q) (x : Bytes) → capacity q ≤ length (content q) → push q x ≡ none
  pub pop_oldest :
      (q : Q) (x : Bytes) (xs : List Bytes)
      → content q ≡ x ∷ xs
      → (r : Q) × (pop q ≡ some (x, r)) × (content r ≡ xs) × (capacity r ≡ capacity q)
  pub pop_empty : (q : Q) → content q ≡ [] → pop q ≡ none

-- Where `main` is; after `pop` it has the text that it prints.
pub data Main : Type 0 where
  at_push : Main
  at_pop : Main
  at_join_td2 : Bytes → Main
  at_join_td1 : Bytes → Main
  at_return : Bytes → Main

-- The queue, `main`, and the rounds that the threads have behind them.
pub record QueueProgram (Q : Type 0) : Type 0 where
  pub queue : Q
  pub main : Main
  pub put : ℕ
  pub got : ℕ

pub data Mover : Type 0 where
  main_moves put_moves get_moves : Mover

abbrev pub rounds : ℕ
rounds = 2000

abbrev pub put_text : ℕ → Bytes
put_text i = ascii "data:" ++ to_string i

abbrev pub main_text : Bytes
main_text = ascii "10086"

module _ {Q : Type 0} (ops : BoundedQueue Q) where
  -- One round of `put_data_by_thread`; a round of a `push` that waits changes nothing.
  unfoldable pub put_data_by_thread : QueueProgram Q → QueueProgram Q
  put_data_by_thread s =
      if ltb s.put rounds
      then elim (ops.push s.queue (put_text s.put)) [
        | none ↦ s
        | some q ↦ record s { queue = q; put = s.put + 1 }
      ]
      else s

  -- One round of `get_data_by_thread`, which clears a text of its own.
  unfoldable pub get_data_by_thread : QueueProgram Q → QueueProgram Q
  get_data_by_thread s = if ltb s.got rounds then record s { got = s.got + 1 } else s

  -- The next call of `main`, once both threads are started.
  unfoldable pub main_next : Main → QueueProgram Q → QueueProgram Q
  main_next at_push s = elim (ops.push s.queue main_text) [
    | none ↦ s
    | some q ↦ record s { queue = q; main = at_pop }
  ]
  main_next at_pop s = elim (ops.pop s.queue) [
    | none ↦ s
    | some xq ↦ record s { queue = xq.1; main = at_join_td2 xq.0 }
  ]
  main_next (at_join_td2 result) s =
      if ltb s.got rounds then s else record s { main = at_join_td1 result }
  main_next (at_join_td1 result) s =
      if ltb s.put rounds then s else record s { main = at_return result }
  main_next (at_return result) s = s

  unfoldable pub queue_program_step : Mover → QueueProgram Q → QueueProgram Q
  unfolding put_data_by_thread get_data_by_thread main_next
  queue_program_step main_moves s = main_next s.main s
  queue_program_step put_moves s = put_data_by_thread s
  queue_program_step get_moves s = get_data_by_thread s

  unfoldable pub queue_program_run : List Mover → QueueProgram Q → QueueProgram Q
  unfolding queue_program_step
  queue_program_run [] s = s
  queue_program_run (t ∷ ts) s = queue_program_run ts (queue_program_step t s)

  abbrev pub queue_program_start : QueueProgram Q
  queue_program_start = record {
    queue = ops.reserve_and_clear 1000;
    main = at_push;
    put = 0;
    got = 0;
  }
