-- ===== src/FreeLockQueue/Race.antt =====
-- Calls of `de_queue` of example/protobuf/free_lock_queue.h, one at a time and two at once.
use cpp_freshman.Prelude.{
  ℕ, Bool, ◌||◌, ◌==◌, ◌≢◌, true, false, none, some, List, [], ◌∷◌, ◌≡◌, refl, arith,
}
use cpp_freshman.FreeLockQueue.{
  NodeMemory, put, Place, de_top, de_delete, returned_val, queue_step, Pair, Turn, one, two,
  pair_step, pair_run,
}

-- Whether an address is that of a node or of one of as many behind it as there are values.
abbrev pub has_node : (ℕ → ℕ) → ℕ → ℕ → List ℕ → Bool
has_node next b a [] = b == a
has_node next b a (x ∷ xs) = b == a || has_node next b (next a) xs

-- From a node that lives the queue has these values, in nodes that live and differ from each other,
-- none of them `nullptr` behind the first.
abbrev pub Chain : NodeMemory → ℕ → List ℕ → Type 0
Chain m a [] = (m.lives a ≡ true) × (m.next a ≡ 0)
Chain m a (x ∷ xs) =
    (m.lives a ≡ true)
    × ((m.next a ≢ 0) × (has_node m.next a (m.next a) xs ≡ false))
    × (m.val (m.next a) ≡ x)
    × Chain m (m.next a) xs

pub has_node-first :
    (next : ℕ → ℕ) (b a : ℕ) (xs : List ℕ) → has_node next b a xs ≡ false → (b == a) ≡ false
has_node-first next b a [] e = e
has_node-first next b a (x ∷ xs) e = ground arith

abbrev pub delete_node : ℕ → NodeMemory → NodeMemory
delete_node a m = record m { lives = put m.lives a false }

pub Chain-delete_node :
    (m : NodeMemory) (a b : ℕ) (xs : List ℕ)
    → has_node m.next a b xs ≡ false
    → Chain m b xs
    → Chain (delete_node a m) b xs
Chain-delete_node m a b [] out (l, e) = (ground arith, e)
Chain-delete_node m a b (x ∷ xs) out (l, up, v, rest) =
    (ground arith, up, v, Chain-delete_node m a (m.next b) xs (ground arith) rest)

pub Chain-lives : (m : NodeMemory) (a : ℕ) (xs : List ℕ) → Chain m a xs → m.lives a ≡ true
Chain-lives m a [] c = c.0
Chain-lives m a (x ∷ xs) c = c.0

abbrev pub same_first : NodeMemory → ℕ → NodeMemory
same_first m h = record m { head = h }

pub Chain-head :
    (m : NodeMemory) (h a : ℕ) (xs : List ℕ) → Chain m a xs → Chain (same_first m h) a xs
Chain-head m h a [] c = c
Chain-head m h a (x ∷ xs) (l, up, v, rest) = (l, up, v, Chain-head m h (m.next a) xs rest)

-- Steps of one call on its own.
abbrev pub alone : NodeMemory → Place → Pair
alone m p = record { memory = m; first = p; second = p }

abbrev pub seven : List Turn
seven = one ∷ one ∷ one ∷ one ∷ one ∷ one ∷ one ∷ []

-- A `de_queue` alone, on a queue with a value, returns the oldest value after seven steps and leaves
-- the others; it is undefined nowhere.
pub pair_run-de_queue :
    (m : NodeMemory) (x : ℕ) (xs : List ℕ) (other : Place)
    → Chain m m.head (x ∷ xs)
    → (t : Pair) × (pair_run seven (record { memory = m; first = de_top; second = other }) ≡ some t)
      × (t.first ≡ returned_val x)
      × (t.second ≡ other)
      × Chain t.memory t.memory.head xs
unfolding pair_run pair_step queue_step
pair_run-de_queue m x xs other (l, up, v, rest) = (
  record {
    memory = delete_node m.head (same_first m (m.next m.head));
    first = returned_val x;
    second = other;
  },
  (let differ = has_node-first m.next m.head (m.next m.head) xs up.1 in
      ground (arith, Chain-lives m (m.next m.head) xs rest, up.0)),
  refl,
  refl,
  Chain-delete_node (same_first m (m.next m.head)) m.head (m.next m.head) xs up.1
      (Chain-head m (m.next m.head) (m.next m.head) xs rest),
)

-- Both calls in turn, six steps each.
abbrev pub both : List Turn
both = one ∷ two ∷ one ∷ two ∷ one ∷ two ∷ one ∷ two ∷ one ∷ two ∷ one ∷ two ∷ []

abbrev pub two_calls : NodeMemory → Pair
two_calls m = record { memory = m; first = de_top; second = de_top }

-- Two calls of `de_queue` in turn, on any queue with a value whose nodes live and differ from each
-- other, come to hold the same value and are both about to delete the same node; whichever goes
-- first, the other one's `delete` is undefined.
pub pair_run-both :
    (m : NodeMemory) (x : ℕ) (xs : List ℕ)
    → Chain m m.head (x ∷ xs)
    → (t : Pair) × (pair_run both (two_calls m) ≡ some t)
      × (t.first ≡ de_delete m.head x)
      × (t.second ≡ de_delete m.head x)
      × (pair_run (one ∷ two ∷ []) t ≡ none)
      × (pair_run (two ∷ one ∷ []) t ≡ none)
unfolding pair_run pair_step queue_step
pair_run-both m x xs (l, up, v, rest) =
    let at : Pair = record {
      memory = same_first m (m.next m.head);
      first = de_delete m.head x;
      second = de_delete m.head x;
    } in
    (
      at,
      ground (arith, Chain-lives m (m.next m.head) xs rest, up.0),
      refl,
      refl,
      ground arith,
      ground arith,
    )
