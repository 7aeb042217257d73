-- ===== src/CacheLine/Runs.antt =====
-- The threads of example/performance_units/debug_cache_line.cpp in any order: how far each is, and
-- what is in the cells.
use cpp_freshman.Prelude.{
  ℕ, ◌+◌, ◌-◌, ◌*◌, ◌%◌, ◌^◌, ◌≤◌, ◌<◌, List, [], ◌∷◌, ◌≡◌, ◌≢◌, refl, arith, true, ltb, ◌==◌,
  if◌then◌else◌, some, Bool-cases, inl, inr,
}
use cpp_freshman.CacheLine.{
  Cells, put, Pc, at_test, at_count, at_next, at_end, work_step, Turn, first_turn, second_turn,
  Threads, both_end, threads_start, threads_step, threads_run, joined, false_sharing_example,
  no_false_sharing_example, sum_threads,
}

-- How often a thread with `n` rounds has counted, and how many steps it has left.
abbrev pub counted : ℕ → Pc → ℕ
counted n (at_test i) = i
counted n (at_count i) = i
counted n (at_next i) = i + 1
counted n at_end = n

abbrev pub left : ℕ → Pc → ℕ
left n (at_test i) = 3 * (n - i) + 1
left n (at_count i) = 3 * (n - i)
left n (at_next i) = 3 * (n - i) - 1
left n at_end = 0

abbrev pub IsWithin : ℕ → Pc → Type 0
IsWithin n (at_test i) = i ≤ n
IsWithin n (at_count i) = i < n
IsWithin n (at_next i) = i < n
IsWithin n at_end = Unit

-- What a thread on the counter `a` has added to the cell `x`.
abbrev pub added : ℕ → ℕ → Pc → ℕ → ℕ
added a n p x = if x == a then counted n p else 0

-- A step stays within the loop, uses one of the steps that are left, and adds what it counts.
pub record IsStep (a n : ℕ) (p : Pc) (m : Cells) (q : Pc) (l : Cells) : Type 0 where
  pub within : IsWithin n q
  pub fewer : left n q ≡ left n p - 1
  pub adds : (x c : ℕ) → m x ≡ (c + added a n p x) % 2 ^ 32 → l x ≡ (c + added a n q x) % 2 ^ 32

pub work_step-IsStep :
    (a n : ℕ) (p : Pc) (m : Cells)
    → IsWithin n p
    → IsStep a n p m (work_step a n p m).0 (work_step a n p m).1
unfolding work_step
work_step-IsStep a n (at_test i) m w = elim (Bool-cases (ltb i n)) [
  | inl e ↦ rw e (record { within = ground arith; fewer = omega arith; adds = λ x c e. e })
  | inr e ↦
      let end : i ≡ n = ground arith in
      rw e (record { within = tt; fewer = omega (arith, end); adds = λ x c f. ground arith })
]
work_step-IsStep a n (at_count i) m w = record {
  within = w;
  fewer = omega arith;
  adds = λ x c e. ground arith;
}
work_step-IsStep a n (at_next i) m w = record {
  within = omega arith;
  fewer = omega arith;
  adds = λ x c e. e;
}
work_step-IsStep a n at_end m w = record { within = w; fewer = refl; adds = λ x c e. e }

-- A thread without a step left is at its end.
pub left-at_end : (n : ℕ) (p : Pc) → IsWithin n p → left n p ≡ 0 → p ≡ at_end
left-at_end n (at_test i) w e = absurd (omega arith)
left-at_end n (at_count i) w e = absurd (omega arith)
left-at_end n (at_next i) w e = absurd (omega arith)
left-at_end n at_end w e = refl

abbrev pub turns : Turn → List Turn → ℕ
turns t [] = 0
turns first_turn (first_turn ∷ ts) = turns first_turn ts + 1
turns first_turn (second_turn ∷ ts) = turns first_turn ts
turns second_turn (first_turn ∷ ts) = turns second_turn ts
turns second_turn (second_turn ∷ ts) = turns second_turn ts + 1

module _ (a b n k : ℕ) where
  -- Both threads are within their loops, and a cell has what it began with and what they added.
  pub record IsCounted (m : Cells) (s : Threads) : Type 0 where
    pub first_within : IsWithin n s.first
    pub second_within : IsWithin k s.second
    pub cells_at : (x : ℕ) → s.cells x ≡ (m x + added a n s.first x + added b k s.second x) % 2 ^ 32

  -- Both threads have used their turns.
  abbrev pub IsUsed : List Turn → Threads → Threads → Type 0
  IsUsed ts s t =
      (left n t.first ≡ left n s.first - turns first_turn ts)
      × (left k t.second ≡ left k s.second - turns second_turn ts)

  pub threads_step-IsCounted :
      (m : Cells) (t : Turn) (s : Threads)
      → IsCounted m s
      → IsCounted m (threads_step a b n k t s) × IsUsed (t ∷ []) s (threads_step a b n k t s)
  unfolding threads_step
  threads_step-IsCounted m first_turn s h =
      let st = work_step-IsStep a n s.first s.cells h.first_within in
      (
        record {
          first_within = st.within;
          second_within = h.second_within;
          cells_at = λ x.
              omega (arith, st.adds x (m x + added b k s.second x) (omega (arith, h.cells_at x)));
        },
        (st.fewer, omega arith),
      )
  threads_step-IsCounted m second_turn s h =
      let st = work_step-IsStep b k s.second s.cells h.second_within in
      (
        record {
          first_within = h.first_within;
          second_within = st.within;
          cells_at = λ x. st.adds x (m x + added a n s.first x) (h.cells_at x);
        },
        (omega arith, st.fewer),
      )

  pub IsUsed-cons :
      (t : Turn) (ts : List Turn) (s u v : Threads)
      → IsUsed (t ∷ []) s u
      → IsUsed ts u v
      → IsUsed (t ∷ ts) s v
  IsUsed-cons first_turn ts s u v (e, f) (g, h) = (omega arith, omega arith)
  IsUsed-cons second_turn ts s u v (e, f) (g, h) = (omega arith, omega arith)

  pub threads_run-IsCounted :
      (m : Cells) (ts : List Turn) (s : Threads)
      → IsCounted m s
      → IsCounted m (threads_run a b n k ts s) × IsUsed ts s (threads_run a b n k ts s)
  unfolding threads_run
  threads_run-IsCounted m [] s h = (h, (omega arith, omega arith))
  threads_run-IsCounted m (t ∷ ts) s h =
      let u = threads_step a b n k t s in
      let (i, e) = threads_step-IsCounted m t s h in
      let (j, f) = threads_run-IsCounted m ts u i in
      (j, IsUsed-cons t ts s u (threads_run a b n k ts u) e f)

  -- Threads with enough turns are at their end, and the cells have all that they counted.
  pub threads_run_enough :
      (m : Cells) (ts : List Turn)
      → ((x : ℕ) → m x < 2 ^ 32)
      → 3 * n < turns first_turn ts
      → 3 * k < turns second_turn ts
      → (both_end
            (threads_run a b n k ts (threads_start m)).first
            (threads_run a b n k ts (threads_start m)).second
          ≡ true)
        × ((x : ℕ)
            → (threads_run a b n k ts (threads_start m)).cells x
              ≡ (m x + (if x == a then n else 0) + (if x == b then k else 0)) % 2 ^ 32)
  threads_run_enough m ts small f g =
      let h : IsCounted m (threads_start m) = record {
        first_within = omega arith;
        second_within = omega arith;
        cells_at = λ x. ground (arith, small x);
      } in
      let (i, (e1, e2)) = threads_run-IsCounted m ts (threads_start m) h in
      let p = left-at_end n _ i.first_within (omega arith) in
      let q = left-at_end k _ i.second_within (omega arith) in
      (rw (p, q) refl, λ x. rw (p, q) at (i.cells_at x))

-- Each thread has had a turn for every one of its steps: three for a round, and the last test.
abbrev pub IsFair : ℕ → List Turn → Type 0
IsFair n ts = (3 * n < turns first_turn ts) × (3 * n < turns second_turn ts)

-- Two counters apart, both 0 at first.
pub threads_run_apart :
    (a b n : ℕ) (m : Cells) (ts : List Turn)
    → ((x : ℕ) → m x < 2 ^ 32)
    → n < 2 ^ 31
    → a ≢ b
    → IsFair n ts
    → joined {A = ℕ × ℕ} (threads_run a b n n ts (threads_start (put (put m a 0) b 0))) (
      (threads_run a b n n ts (threads_start (put (put m a 0) b 0))).cells a,
      (threads_run a b n n ts (threads_start (put (put m a 0) b 0))).cells b,
    )
      ≡ some (n, n)
threads_run_apart a b n m ts small lt ne (f, g) =
    let (e, h) =
      threads_run_enough a b n n (put (put m a 0) b 0) ts (λ x. ground (arith, small x)) f g in
    let p : (threads_run a b n n ts (threads_start (put (put m a 0) b 0))).cells a ≡ n =
      ground (arith, h a) in
    let q : (threads_run a b n n ts (threads_start (put (put m a 0) b 0))).cells b ≡ n =
      ground (arith, h b) in
    rw (e, p, q) refl

-- For a number of iterations that is an `int`, over memory of 32-bit cells, both examples print
-- that number for both counters, wherever the structures stand and whatever the order of the
-- steps, once each thread had three turns for every iteration and one more: sharing a cache line
-- changes no result.
pub examples_print :
    (data_at n : ℕ) (m : Cells) (ts us : List Turn)
    → ((x : ℕ) → m x < 2 ^ 32)
    → n < 2 ^ 31
    → IsFair n ts
    → IsFair n us
    → (false_sharing_example data_at m n ts ≡ some (n, n))
      × (no_false_sharing_example data_at m n us ≡ some (n, n))
unfolding false_sharing_example no_false_sharing_example
examples_print data_at n m ts us small lt f g = (
  threads_run_apart data_at (data_at + 4) n m ts small lt (omega arith) f,
  threads_run_apart data_at (data_at + 64) n m us small lt (omega arith) g,
)

-- Whatever the order of the steps, the two threads that add 1 to one sum, each in `n` rounds, leave
-- twice `n` in it, in 32 bits, once each had three turns for every round and one more.
pub sum_threads_total :
    (sum_at n : ℕ) (m : Cells) (ts : List Turn)
    → ((x : ℕ) → m x < 2 ^ 32)
    → IsFair n ts
    → sum_threads sum_at m n ts ≡ some ((n + n) % 2 ^ 32)
unfolding sum_threads
sum_threads_total sum_at n m ts small (f, g) =
    let (e, h) =
      threads_run_enough sum_at sum_at n n (put m sum_at 0) ts (λ x. ground (arith, small x)) f g in
    let p : (threads_run sum_at sum_at n n ts (threads_start (put m sum_at 0))).cells sum_at
        ≡ (n + n) % 2 ^ 32 =
      ground (arith, h sum_at) in
    rw (e, p) refl
