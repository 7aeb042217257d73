-- ===== src/FreeLockQueue/Enqueue.antt =====
-- A call of `en_queue` of example/protobuf/free_lock_queue.h that is alone.
use cpp_freshman.Prelude.{
  ℕ, ◌+◌, ◌≢◌, ap, Bool-cases, inl, inr, true, false, some, List, [], ◌∷◌, ◌++◌, ◌≡◌, refl, ◌==◌,
  arith,
}
use cpp_freshman.FreeLockQueue.{
  NodeMemory, put, Place, returned_true, new_node, queue_step, Pair, Turn, one, pair_step, pair_run,
}
use cpp_freshman.FreeLockQueue.Race.{has_node, has_node-first, Chain}

-- The last node of a chain.
abbrev pub last : NodeMemory → ℕ → List ℕ → ℕ
last m a [] = a
last m a (x ∷ xs) = last m (m.next a) xs

pub has_node-last :
    (m : NodeMemory) (a : ℕ) (xs : List ℕ) → has_node m.next (last m a xs) a xs ≡ true
has_node-last m a [] = ground arith
has_node-last m a (x ∷ xs) = ground (arith, has_node-last m (m.next a) xs)

pub last-lives :
    (m : NodeMemory) (a : ℕ) (xs : List ℕ) → Chain m a xs → m.lives (last m a xs) ≡ true
last-lives m a [] c = c.0
last-lives m a (x ∷ xs) (l, up, v, rest) = last-lives m (m.next a) xs rest

pub last-next : (m : NodeMemory) (a : ℕ) (xs : List ℕ) → Chain m a xs → m.next (last m a xs) ≡ 0
last-next m a [] c = c.1
last-next m a (x ∷ xs) (l, up, v, rest) = last-next m (m.next a) xs rest

-- The memory with one more node behind a node, to which `tail` points.
abbrev pub linked : NodeMemory → ℕ → ℕ → NodeMemory
linked m b x = record {
  val = put m.val m.unused x;
  next = put (put m.next m.unused 0) b m.unused;
  lives = put m.lives m.unused true;
  head = m.head;
  tail = m.unused;
  unused = m.unused + 1;
}

-- An address that is there is not one that is not.
has_node-apart :
    (next : ℕ → ℕ) (b c a : ℕ) (xs : List ℕ)
    → has_node next b a xs ≡ true
    → has_node next c a xs ≡ false
    → (b == c) ≡ false
has_node-apart next b c a xs on off = elim (Bool-cases (b == c)) [
  | inl e ↦
      let same : b ≡ c = ground arith in
      absurd (ground (arith, ap (λ z. has_node next z a xs) same))
  | inr e ↦ e
]

-- A first node of several is neither the last one nor the new one, and what it points to stays.
linked-next :
    (m : NodeMemory) (a b x y : ℕ) (ys : List ℕ)
    → Chain m a (y ∷ ys)
    → last m (m.next a) ys ≡ b
    → has_node m.next m.unused a (y ∷ ys) ≡ false
    → (linked m b x).next a ≡ m.next a
linked-next m a b x y ys (l, (n, differ), v, rest) is_last fresh =
    let on : has_node m.next b (m.next a) ys ≡ true =
      rw is_last at (has_node-last m (m.next a) ys) in
    let last_not : (b == a) ≡ false = has_node-apart m.next b a (m.next a) ys on differ in
    let not_last : (a == b) ≡ false = ground arith in
    let not_new : (a == m.unused) ≡ false = ground arith in rw (not_last, not_new) refl

has_node-linked :
    (m : NodeMemory) (a b c x : ℕ) (xs : List ℕ)
    → Chain m a xs
    → last m a xs ≡ b
    → has_node m.next m.unused a xs ≡ false
    → has_node m.next c a xs ≡ false
    → (c == m.unused) ≡ false
    → has_node (linked m b x).next c a (xs ++ x ∷ []) ≡ false
has_node-linked m a b c x [] chain is_last fresh out other =
    let at_end : (linked m b x).next a ≡ m.unused = ground arith in ground arith
has_node-linked m a b c x (y ∷ ys) (l, d, v, rest) is_last fresh out other =
    let same = linked-next m a b x y ys (l, d, v, rest) is_last fresh in
    let ih =
      has_node-linked m (m.next a) b c x ys rest is_last (ground arith) (ground arith) other in
    let first : (c == a) ≡ false = ground arith in rw (same, first) ih

pub Chain-linked :
    (m : NodeMemory) (a b x : ℕ) (xs : List ℕ)
    → Chain m a xs
    → last m a xs ≡ b
    → has_node m.next m.unused a xs ≡ false
    → m.unused ≢ 0
    → Chain (linked m b x) a (xs ++ x ∷ [])
Chain-linked m a b x [] (l, e) is_last fresh real =
    let self : (b == b) ≡ true = ground arith in
    let above : (m.unused == b) ≡ false = ground arith in
    let new : (m.unused == m.unused) ≡ true = ground arith in
    let other : (b == m.unused) ≡ false = ground arith in
    rw (is_last, self, new, other, above) (rw is_last at l, (real, refl), refl, (refl, refl))
Chain-linked m a b x (y ∷ ys) (l, (n, differ), v, rest) is_last fresh real =
    let same = linked-next m a b x y ys (l, (n, differ), v, rest) is_last fresh in
    let not_new : (a == m.unused) ≡ false = ground arith in
    let later = has_node-first m.next m.unused (m.next a) ys (ground arith) in
    let next_not_new : (m.next a == m.unused) ≡ false = ground arith in
    let inner = Chain-linked m (m.next a) b x ys rest is_last (ground arith) real in
    let apart = has_node-linked m (m.next a) b a x ys rest is_last (ground arith) differ not_new in
    rw (same, not_new, next_not_new) (l, (n, apart), v, inner)

abbrev pub three : List Turn
three = one ∷ one ∷ one ∷ []

-- A call of `en_queue` that is alone, on a queue whose nodes live and differ from each other and
-- whose tail is the last of them, returns true after three steps and appends its value, if `new`
-- gives an address that is not null and not that of a node of the queue, and the `next` of the new
-- node happens to be null.
pub pair_run-en_queue :
    (m : NodeMemory) (x : ℕ) (xs : List ℕ) (other : Place)
    → Chain m m.head xs
    → last m m.head xs ≡ m.tail
    → has_node m.next m.unused m.head xs ≡ false
    → m.unused ≢ 0
    → (t : Pair) × (pair_run three (record {
      memory = (new_node x 0 m).memory;
      first = (new_node x 0 m).place;
      second = other;
    })
        ≡ some t)
      × (t.first ≡ returned_true)
      × (t.second ≡ other)
      × Chain t.memory t.memory.head (xs ++ x ∷ [])
unfolding pair_run pair_step queue_step new_node
pair_run-en_queue m x xs other chain is_last fresh real =
    let live : m.lives m.tail ≡ true = rw is_last at (last-lives m m.head xs chain) in
    let on = has_node-last m m.head xs in
    let apart : (m.tail == m.unused) ≡ false =
      has_node-apart m.next m.tail m.unused m.head xs (rw is_last at on) fresh in
    let ends : m.next m.tail ≡ 0 = rw is_last at (last-next m m.head xs chain) in
    (
      record { memory = linked m m.tail x; first = returned_true; second = other },
      ground arith,
      refl,
      refl,
      Chain-linked m m.head m.tail x xs chain is_last fresh real,
    )
