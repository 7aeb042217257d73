-- ===== src/LockFreeQueue.antt =====
-- example/performance_units/lock_free_queue.cpp: `LockFreeQueue` as a linked list in shared memory,
-- with `input` and `output` cut into steps of one access to that memory each.
pub mod Atomic
pub mod Shape
pub mod Keep
pub mod Moves
pub mod Links
pub mod Refine
pub mod Runs
pub mod Progress
pub mod Tests
use cpp_freshman.Prelude.{ℕ, suc, List, [], ◌∷◌, ◌++◌, ◌==◌, if◌then◌else◌}

-- Shared memory: the nodes by address, the two pointers, and the first address never handed out.
-- The address 0 is `nullptr`. Nothing is freed, so an address is handed out once.
pub record Memory (V : Type 0) : Type 0 where
  pub log_info : ℕ → V
  pub next : ℕ → ℕ
  pub head : ℕ
  pub tail : ℕ
  pub unused : ℕ

-- Where a thread stands, with its local variables.
pub data Point : Type 0 where
  idle : Point
  -- `input` of a node, before `cur = tail`,
  input_top : ℕ → Point
  -- before `cur->next == nullptr` with a `cur`,
  input_test : ℕ → ℕ → Point
  -- before the compare-and-swap of `cur->next`,
  input_link : ℕ → ℕ → Point
  -- before `cur->next` is read as an argument,
  input_argument : ℕ → ℕ → Point
  -- before the compare-and-swap of `tail` to that value,
  input_help : ℕ → ℕ → ℕ → Point
  -- and before the last compare-and-swap.
  input_advance : ℕ → ℕ → Point
  -- `output` before `first = head`,
  output_top : Point
  -- before `next = first->next` with a `first`,
  output_next : ℕ → Point
  -- before the compare-and-swap of `head` from `first` to `next`,
  output_take : ℕ → ℕ → Point
  -- and before `next->log_info` is read.
  output_read : ℕ → Point

-- What an observer of the threads sees.
pub data Event (V : Type 0) : Type 0 where
  call_input : ℕ → V → Event V
  return_input : ℕ → Event V
  call_output : ℕ → Event V
  return_output : ℕ → V → Event V

-- What an idle thread calls when it is its turn.
pub data Call (V : Type 0) : Type 0 where
  input : V → Call V
  output : Call V

abbrev pub update : {A : Type 0} → (ℕ → A) → ℕ → A → ℕ → A
update f a x b = if b == a then x else f b

-- What one step makes of the memory and of its thread, and what can be seen of it.
pub record Step (V : Type 0) : Type 0 where
  pub memory : Memory V
  pub point : Point
  pub seen : List (Event V)

module _ {V : Type 0} (empty : V) where
  -- The constructor: one node, to which `head` and `tail` point. Its text is empty.
  unfoldable pub create : Memory V
  create = record { log_info = (λ a. empty); next = (λ a. 0); head = 1; tail = 1; unused = 2 }

module _ {V : Type 0} where
  -- `new ListNode(data)`; the step also stands for the call.
  unfoldable pub call : Memory V → ℕ → Call V → Step V
  call m i (input info) = record {
    memory = record m {
      log_info = update m.log_info m.unused info;
      next = update m.next m.unused 0;
      unused = suc m.unused;
    };
    point = input_top m.unused;
    seen = call_input i info ∷ [];
  }
  call m i output = record { memory = m; point = output_top; seen = call_output i ∷ [] }

  -- `__sync_bool_compare_and_swap(&tail, cur, to)`.
  unfoldable pub swap_tail : Memory V → ℕ → ℕ → Memory V
  swap_tail m cur to = record m { tail = (if m.tail == cur then to else m.tail) }

module _ {V : Type 0} (empty : V) where
  -- The next step of a thread; an idle one makes the call that it is given.
  unfoldable pub step : Memory V → ℕ → Point → Call V → Step V
  unfolding call swap_tail
  step m i idle c = call m i c
  step m i (input_top node) c = record { memory = m; point = input_test node m.tail; seen = [] }
  step m i (input_test node cur) c = record {
    memory = m;
    point = (if m.next cur == 0 then input_link node cur else input_argument node cur);
    seen = [];
  }
  step m i (input_link node cur) c =
      if m.next cur == 0
      then record {
        memory = record m { next = update m.next cur node };
        point = input_advance node cur;
        seen = [];
      }
      else record { memory = m; point = input_top node; seen = [] }
  step m i (input_argument node cur) c = record {
    memory = m;
    point = input_help node cur (m.next cur);
    seen = [];
  }
  step m i (input_help node cur next) c = record {
    memory = swap_tail m cur next;
    point = input_top node;
    seen = [];
  }
  step m i (input_advance node cur) c = record {
    memory = swap_tail m cur node;
    point = idle;
    seen = return_input i ∷ [];
  }
  step m i output_top c = record { memory = m; point = output_next m.head; seen = [] }
  step m i (output_next first) c =
      let next = m.next first in
      if next == 0
      then record { memory = m; point = idle; seen = return_output i empty ∷ [] }
      else record { memory = m; point = output_take first next; seen = [] }
  step m i (output_take first next) c =
      if m.head == first
      then record { memory = record m { head = next }; point = output_read next; seen = [] }
      else record { memory = m; point = output_top; seen = [] }
  step m i (output_read next) c = record {
    memory = m;
    point = idle;
    seen = return_output i (m.log_info next) ∷ [];
  }

-- The threads by number, and the memory that they share.
pub record System (V : Type 0) : Type 0 where
  pub memory : Memory V
  pub threads : ℕ → Point

module _ {V : Type 0} (empty : V) where
  unfoldable pub start : System V
  unfolding create
  start = record { memory = create empty; threads = (λ i. idle) }

  -- A schedule names the thread of each step, and what it calls if it is idle.
  unfoldable pub execute : List (ℕ × Call V) → System V → System V × List (Event V)
  unfolding step
  execute [] s = (s, [])
  execute ((i, c) ∷ schedule) s =
      let taken = step empty s.memory i (s.threads i) c in
      let later =
        execute schedule
          (record { memory = taken.memory; threads = update s.threads i taken.point }) in
      (later.0, taken.seen ++ later.1)
