-- ===== src/FreeLockQueue.antt =====
-- example/protobuf/free_lock_queue.h: `FreeLockQueue`, cut into steps of one access to shared memory
-- each, with the nodes that `de_queue` deletes.
pub mod Race
pub mod Enqueue
pub mod Tests
use cpp_freshman.Prelude.{
  ℕ, ◌+◌, Bool, true, false, Option, none, some, List, [], ◌∷◌, ◌==◌, if◌then◌else◌,
}

-- Shared memory: the nodes by address, which of them live, and the two pointers. The address 0 is
-- `nullptr`.
pub record NodeMemory : Type 0 where
  pub val : ℕ → ℕ
  pub next : ℕ → ℕ
  pub lives : ℕ → Bool
  pub head : ℕ
  pub tail : ℕ
  pub unused : ℕ

abbrev pub put : {A : Type 0} → (ℕ → A) → ℕ → A → ℕ → A
put f a x b = if b == a then x else f b

-- Where a call stands, with its local variables.
pub data Place : Type 0 where
  -- `en_queue` of a node, before `cur = tail`,
  en_top : ℕ → Place
  -- before the compare-and-swap of `cur->next`,
  en_link : ℕ → ℕ → Place
  -- before `cur->next` is read as an argument,
  en_argument : ℕ → ℕ → Place
  -- before the compare-and-swap of `tail` to that value,
  en_help : ℕ → ℕ → ℕ → Place
  -- before the last compare-and-swap,
  en_advance : ℕ → ℕ → Place
  -- and after `return true`.
  returned_true : Place
  -- `de_queue` before `cur = head`,
  de_top : Place
  -- before `cur->next == nullptr` with a `cur`,
  de_test : ℕ → Place
  -- before `cur->next` is read as an argument,
  de_argument : ℕ → Place
  -- before the compare-and-swap of `head` to that value, whose result nothing reads,
  de_swap : ℕ → ℕ → Place
  -- before `cur->next` is read again,
  de_again : ℕ → Place
  -- before its `val` is read,
  de_val : ℕ → ℕ → Place
  -- before `delete cur` with that value,
  de_delete : ℕ → ℕ → Place
  -- after `return val`, and after `return -1`.
  returned_val : ℕ → Place
  returned_empty : Place

pub record Moved : Type 0 where
  pub memory : NodeMemory
  pub place : Place

-- `new ListNode(x)`: the constructor leaves `next` as it is, which is `junk`.
unfoldable pub new_node : ℕ → ℕ → NodeMemory → Moved
new_node x junk m = record {
  memory = record m {
    val = put m.val m.unused x;
    next = put m.next m.unused junk;
    lives = put m.lives m.unused true;
    unused = m.unused + 1;
  };
  place = en_top m.unused;
}

abbrev pub stay : NodeMemory → Place → Option Moved
stay m p = some record { memory = m; place = p }

-- An access to a node that does not live is undefined.
abbrev pub if_lives : NodeMemory → ℕ → Option Moved → Option Moved
if_lives m a moved = if m.lives a then moved else none

-- The next step of a call.
unfoldable pub queue_step : NodeMemory → Place → Option Moved
queue_step m (en_top node) = stay m (en_link node m.tail)
queue_step m (en_link node cur) = if_lives m cur (
    if m.next cur == 0
    then stay (record m { next = put m.next cur node }) (en_advance node cur)
    else stay m (en_argument node cur))
queue_step m (en_argument node cur) = if_lives m cur (stay m (en_help node cur (m.next cur)))
queue_step m (en_help node cur next) =
    stay (record m { tail = (if m.tail == cur then next else m.tail) }) (en_top node)
queue_step m (en_advance node cur) =
    stay (record m { tail = (if m.tail == cur then node else m.tail) }) returned_true
queue_step m returned_true = stay m returned_true
queue_step m de_top = stay m (de_test m.head)
queue_step m (de_test cur) =
    if_lives m cur (if m.next cur == 0 then stay m returned_empty else stay m (de_argument cur))
queue_step m (de_argument cur) = if_lives m cur (stay m (de_swap cur (m.next cur)))
queue_step m (de_swap cur next) =
    stay (record m { head = (if m.head == cur then next else m.head) }) (de_again cur)
queue_step m (de_again cur) = if_lives m cur (stay m (de_val cur (m.next cur)))
queue_step m (de_val cur next) = if_lives m next (stay m (de_delete cur (m.val next)))
queue_step m (de_delete cur v) =
    if_lives m cur (stay (record m { lives = put m.lives cur false }) (returned_val v))
queue_step m (returned_val v) = stay m (returned_val v)
queue_step m returned_empty = stay m returned_empty

-- Two calls on one queue.
pub record Pair : Type 0 where
  pub memory : NodeMemory
  pub first : Place
  pub second : Place

-- Whose turn it is.
pub data Turn : Type 0 where
  one two : Turn

unfoldable pub pair_step : Turn → Pair → Option Pair
unfolding queue_step
pair_step one s = elim (queue_step s.memory s.first) [
  | none ↦ none
  | some t ↦ some record s { memory = t.memory; first = t.place }
]
pair_step two s = elim (queue_step s.memory s.second) [
  | none ↦ none
  | some t ↦ some record s { memory = t.memory; second = t.place }
]

unfoldable pub pair_run : List Turn → Pair → Option Pair
unfolding pair_step
pair_run [] s = some s
pair_run (t ∷ ts) s = elim (pair_step t s) [ none ↦ none | some s ↦ pair_run ts s ]
