-- ===== src/LockFreeQueue/Shape.antt =====
-- What holds of the memory and the threads of `LockFreeQueue` between two steps.
use cpp_freshman.Prelude.{ℕ, zero, suc, ◌+◌, ◌≤◌, ◌<◌, List, [], ◌∷◌, ◌≡◌, ◌≢◌}
use cpp_freshman.LockFreeQueue.{
  Memory, Point, idle, input_top, input_test, input_link, input_argument, input_help, input_advance,
  output_top, output_next, output_take, output_read,
}
use cpp_freshman.LockFreeQueue.Atomic.{Status, quiet, given, put, asking, took, Atomic}

-- The nodes that were ever linked, in their order; which of them `head` and `tail` point to; how
-- many follow `head`; and which thread made a node.
pub record Ghost : Type 0 where
  pub chain : ℕ → ℕ
  pub owner : ℕ → ℕ
  pub head_at : ℕ
  pub size : ℕ
  pub tail_at : ℕ

abbrev pub last : Ghost → ℕ
last g = g.head_at + g.size

-- The texts of the `n` nodes that follow the node at position `k`.
unfoldable pub contents : {V : Type 0} → (ℕ → V) → (ℕ → ℕ) → ℕ → ℕ → List V
contents info chain k zero = []
contents info chain k (suc n) = info (chain (suc k)) ∷ contents info chain (suc k) n

-- A node at a position up to a bound; two nodes that follow each other.
pub record At (g : Ghost) (bound a : ℕ) : Type 0 where
  pub position : ℕ
  pub within : position ≤ bound
  pub there : g.chain position ≡ a

pub record Follows (g : Ghost) (a b : ℕ) : Type 0 where
  pub position : ℕ
  pub within : position < last g
  pub before : g.chain position ≡ a
  pub after : g.chain (suc position) ≡ b

module _ {V : Type 0} where
  pub record IsList (m : Memory V) (g : Ghost) : Type 0 where
    pub linked : (k : ℕ) → k < last g → m.next (g.chain k) ≡ g.chain (suc k)
    pub ends : m.next (g.chain (last g)) ≡ 0
    pub positive : (k : ℕ) → k ≤ last g → 0 < g.chain k
    pub used : (k : ℕ) → k ≤ last g → g.chain k < m.unused
    pub distinct : (j k : ℕ) → j ≤ last g → k ≤ last g → g.chain j ≡ g.chain k → j ≡ k
    pub head_there : m.head ≡ g.chain g.head_at
    pub tail_there : m.tail ≡ g.chain g.tail_at
    pub tail_within : g.tail_at ≤ last g
    pub tail_near : last g ≤ suc g.tail_at

  -- A node that a thread has made and not linked yet.
  pub record IsNew (m : Memory V) (g : Ghost) (i node : ℕ) : Type 0 where
    pub made : 0 < node
    pub used : node < m.unused
    pub unlinked : m.next node ≡ 0
    pub apart : (k : ℕ) → k ≤ last g → g.chain k ≢ node
    pub owned : g.owner node ≡ i

  unfoldable pub IsSound : Memory V → Ghost → ℕ → Point → Type 0
  IsSound m g i idle = Unit
  IsSound m g i (input_top node) = IsNew m g i node
  IsSound m g i (input_test node cur) = IsNew m g i node × At g g.tail_at cur
  IsSound m g i (input_link node cur) = IsNew m g i node × At g g.tail_at cur
  IsSound m g i (input_argument node cur) = IsNew m g i node × Follows g cur (m.next cur)
  IsSound m g i (input_help node cur next) = IsNew m g i node × Follows g cur next
  IsSound m g i (input_advance node cur) = Follows g cur node
  IsSound m g i output_top = Unit
  IsSound m g i (output_next first) = At g g.head_at first
  IsSound m g i (output_take first next) = Follows g first next
  IsSound m g i (output_read next) = At g (last g) next

  -- How far the operation is, seen as an operation of the atomic queue.
  unfoldable pub status_of : Memory V → Point → Status V
  status_of m idle = quiet
  status_of m (input_top node) = given (m.log_info node)
  status_of m (input_test node cur) = given (m.log_info node)
  status_of m (input_link node cur) = given (m.log_info node)
  status_of m (input_argument node cur) = given (m.log_info node)
  status_of m (input_help node cur next) = given (m.log_info node)
  status_of m (input_advance node cur) = put
  status_of m output_top = asking
  status_of m (output_next first) = asking
  status_of m (output_take first next) = asking
  status_of m (output_read next) = took (m.log_info next)

  pub record Simulates (m : Memory V) (threads : ℕ → Point) (g : Ghost) (a : Atomic V)
      : Type 0 where
    pub list : IsList m g
    pub sound : (i : ℕ) → IsSound m g i (threads i)
    pub same_status : (i : ℕ) → a.status i ≡ status_of m (threads i)
    pub same_values : a.values ≡ contents m.log_info g.chain g.head_at g.size

  -- What a step of thread `i` keeps for the others.
  pub record Extends (i : ℕ) (m : Memory V) (g : Ghost) (m' : Memory V) (g' : Ghost) : Type 0 where
    pub chain_kept : (k : ℕ) → k ≤ last g → g'.chain k ≡ g.chain k
    pub head_later : g.head_at ≤ g'.head_at
    pub tail_later : g.tail_at ≤ g'.tail_at
    pub last_later : last g ≤ last g'
    pub info_kept : (a : ℕ) → a < m.unused → m'.log_info a ≡ m.log_info a
    pub next_kept : (k : ℕ) → k < last g → m'.next (g.chain k) ≡ m.next (g.chain k)
    pub new_kept : (j node : ℕ) → j ≢ i → IsNew m g j node → IsNew m' g' j node
