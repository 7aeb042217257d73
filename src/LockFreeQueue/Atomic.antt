-- ===== src/LockFreeQueue/Atomic.antt =====
-- The queue that `LockFreeQueue` stands for: each operation takes effect at one point between its
-- call and its return.
use cpp_freshman.Prelude.{ℕ, List, [], ◌∷◌, ◌++◌, ◌≡◌}
use cpp_freshman.LockFreeQueue.{Event, call_input, return_input, call_output, return_output, update}

-- How far a thread's operation is. `given` has a value that is not in the queue yet, `put` has
-- taken effect, `asking` waits for a value, and `took` has one to return.
pub data Status (V : Type 0) : Type 0 where
  quiet : Status V
  given : V → Status V
  put : Status V
  asking : Status V
  took : V → Status V

pub record Atomic (V : Type 0) : Type 0 where
  pub values : List V
  pub status : ℕ → Status V

-- The queue with another status of thread `i`, and with other values too.
abbrev pub becomes : {V : Type 0} → Atomic V → ℕ → Status V → Atomic V
becomes a i st = record a { status = update a.status i st }

abbrev pub holds : {V : Type 0} → Atomic V → List V → ℕ → Status V → Atomic V
holds a vs i st = record { values = vs; status = update a.status i st }

abbrev pub new : {V : Type 0} → Atomic V
new = record { values = []; status = (λ i. quiet) }

-- What can be seen of a queue from one state until it is in a state with `Final`. `output` of an
-- empty queue has the value `empty`.
pub data Shows {V : Type 0} (empty : V) (Final : Atomic V → Type 0)
    : Atomic V → List (Event V) → Type 0 where
  stops : (a : Atomic V) → Final a → Shows empty Final a []
  calls_input :
      (a : Atomic V) (es : List (Event V)) (i : ℕ) (v : V)
      → a.status i ≡ quiet
      → Shows empty Final (becomes a i (given v)) es
      → Shows empty Final a (call_input i v ∷ es)
  puts :
      (a : Atomic V) (es : List (Event V)) (i : ℕ) (v : V)
      → a.status i ≡ given v
      → Shows empty Final (holds a (a.values ++ v ∷ []) i put) es
      → Shows empty Final a es
  returns_input :
      (a : Atomic V) (es : List (Event V)) (i : ℕ)
      → a.status i ≡ put
      → Shows empty Final (becomes a i quiet) es
      → Shows empty Final a (return_input i ∷ es)
  calls_output :
      (a : Atomic V) (es : List (Event V)) (i : ℕ)
      → a.status i ≡ quiet
      → Shows empty Final (becomes a i asking) es
      → Shows empty Final a (call_output i ∷ es)
  takes :
      (a : Atomic V) (es : List (Event V)) (i : ℕ) (v : V) (vs : List V)
      → a.status i ≡ asking
      → a.values ≡ v ∷ vs
      → Shows empty Final (holds a vs i (took v)) es
      → Shows empty Final a es
  finds_none :
      (a : Atomic V) (es : List (Event V)) (i : ℕ)
      → a.status i ≡ asking
      → a.values ≡ []
      → Shows empty Final (becomes a i (took empty)) es
      → Shows empty Final a es
  returns_output :
      (a : Atomic V) (es : List (Event V)) (i : ℕ) (v : V)
      → a.status i ≡ took v
      → Shows empty Final (becomes a i quiet) es
      → Shows empty Final a (return_output i v ∷ es)
