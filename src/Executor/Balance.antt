-- ===== src/Executor/Balance.antt =====
-- The tuples of `BthreadGraphExecutor` and the work in them, over calls and threads in any order.
use cpp_freshman.Prelude.{
  ℕ, ◌+◌, Bool, true, false, ◌&&◌, ◌==◌, Option, some, List, [], ◌∷◌, ◌++◌, ◌≡◌, refl, arith,
  if◌then◌else◌, inl, inr, Bool-cases, ap, ◌∙◌,
}
use cpp_freshman.Executor.{
  Work, vertex_work, closure_work, Param, Threads, no_threads, find_param, drop_param, drop_thread,
  new_param, delete_param, execute_invoke, Handed, run_vertex, run_closure, Moment, calls_vertex,
  calls_closure, thread_runs, is_waiting, Executor, executor_step, executor_run,
}

abbrev pub same_work : Work → Work → Bool
same_work (vertex_work v c) (vertex_work w d) = v == w && c == d
same_work (closure_work c b) (closure_work d e) = c == d && b == e
same_work _ _ = false

abbrev pub occurrences : Work → List Work → ℕ
occurrences w [] = 0
occurrences w (x ∷ xs) = (if same_work w x then 1 else 0) + occurrences w xs

pub occurrences-append :
    (w : Work) (xs ys : List Work) → occurrences w (xs ++ ys) ≡ occurrences w xs + occurrences w ys
occurrences-append w [] ys = omega arith
occurrences-append w (x ∷ xs) ys = omega (arith, occurrences-append w xs ys)

abbrev pub addresses : List Param → List ℕ
addresses [] = []
addresses (p ∷ ps) = p.address ∷ addresses ps

abbrev pub works : List Param → List Work
works [] = []
works (p ∷ ps) = p.content ∷ works ps

pub addresses-drop_param :
    (a : ℕ) (ps : List Param) → addresses (drop_param a ps) ≡ drop_thread a (addresses ps)
addresses-drop_param a [] = refl
addresses-drop_param a (p ∷ ps) = elim (Bool-cases (p.address == a)) [
  | inl e ↦ rw e refl
  | inr e ↦ rw e (ap (◌∷◌ p.address) (addresses-drop_param a ps))
]

-- A thread that waits has its tuple.
pub find_param_waiting :
    (a : ℕ) (ps : List Param)
    → is_waiting a (addresses ps) ≡ true
    → (w : Work) × (find_param a ps ≡ some w)
find_param_waiting a [] is = ground arith
find_param_waiting a (p ∷ ps) is = elim (Bool-cases (p.address == a)) [
  | inl e ↦ (p.content, rw e refl)
  | inr e ↦ let (w, f) = find_param_waiting a ps (ground (arith, is)) in (w, rw e f)
]

pub occurrences-drop_param :
    (v : Work) (a : ℕ) (ps : List Param) (w : Work)
    → find_param a ps ≡ some w
    → occurrences v (works ps) ≡ occurrences v (w ∷ []) + occurrences v (works (drop_param a ps))
occurrences-drop_param v a [] w f = ground arith
occurrences-drop_param v a (p ∷ ps) w f = elim (Bool-cases (p.address == a)) [
  | inl e ↦ ground arith
  | inr e ↦ ground (arith, occurrences-drop_param v a ps w)
]

-- The tuples that live are just those of the threads that have not run.
abbrev pub IsBalanced : Threads → Type 0
IsBalanced t = addresses t.heap ≡ t.waiting

-- The work that was run, is the caller's again, or waits.
abbrev pub total : Work → Executor → ℕ
total w s =
    occurrences w s.threads.invoked
    + (occurrences w s.refused + occurrences w (works s.threads.heap))

abbrev pub handed : Moment → List Work
handed (calls_vertex started v c) = vertex_work v c ∷ []
handed (calls_closure started c b) = closure_work c b ∷ []
handed (thread_runs a) = []

-- The two calls where the start of the thread fails: the work is the caller's again, and no tuple
-- is left.
abbrev pub given_back : Work → Threads → Option Handed
given_back w t =
    some record { ret_failed = true; left = some w; threads = record t { next = t.next + 1 } }

pub run_vertex_failed :
    (v c : ℕ) (t : Threads) → run_vertex false v c t ≡ given_back (vertex_work v c) t
unfolding run_vertex new_param delete_param
run_vertex_failed v c t = ground arith

pub run_closure_failed :
    (c b : ℕ) (t : Threads) → run_closure false c b t ≡ given_back (closure_work c b) t
unfolding run_closure new_param delete_param
run_closure_failed c b t = ground arith

pub executor_step-total :
    (m : Moment) (s : Executor)
    → IsBalanced s.threads
    → (t : Executor) × (executor_step m s ≡ some t)
      × IsBalanced t.threads
      × ((w : Work) → total w t ≡ occurrences w (handed m) + total w s)
unfolding executor_step run_vertex run_closure execute_invoke new_param delete_param
executor_step-total (calls_vertex true v c) s b =
    (_, refl, ap (◌∷◌ s.threads.next) b, λ w. omega arith)
executor_step-total (calls_vertex false v c) s b = (
  record s {
    threads = record s.threads { next = s.threads.next + 1 };
    refused = s.refused ++ vertex_work v c ∷ [];
  },
  rw (run_vertex_failed v c s.threads) refl,
  b,
  λ w. omega (arith, occurrences-append w s.refused (vertex_work v c ∷ [])),
)
executor_step-total (calls_closure true c k) s b =
    (_, refl, ap (◌∷◌ s.threads.next) b, λ w. omega arith)
executor_step-total (calls_closure false c k) s b = (
  record s {
    threads = record s.threads { next = s.threads.next + 1 };
    refused = s.refused ++ closure_work c k ∷ [];
  },
  rw (run_closure_failed c k s.threads) refl,
  b,
  λ w. omega (arith, occurrences-append w s.refused (closure_work c k ∷ [])),
)
executor_step-total (thread_runs a) s b = elim (Bool-cases (is_waiting a s.threads.waiting)) [
  | inl e ↦
      let (v, f) = find_param_waiting a s.threads.heap (rw b e) in
      (
        record s {
          threads = record s.threads {
            heap = drop_param a s.threads.heap;
            waiting = drop_thread a s.threads.waiting;
            invoked = s.threads.invoked ++ v ∷ [];
          };
        },
        rw (e, f, delete_param, f) refl,
        addresses-drop_param a s.threads.heap ∙ ap (drop_thread a) b,
        λ w. omega (
          arith,
          occurrences-append w s.threads.invoked (v ∷ []),
          occurrences-drop_param w a s.threads.heap v f,
        ),
      )
  | inr e ↦ (s, rw e refl, b, λ w. omega arith)
]

abbrev pub all_handed : List Moment → List Work
all_handed [] = []
all_handed (m ∷ ms) = handed m ++ all_handed ms

pub executor_run-total :
    (ms : List Moment) (s : Executor)
    → IsBalanced s.threads
    → (t : Executor) × (executor_run ms s ≡ some t)
      × IsBalanced t.threads
      × ((w : Work) → total w t ≡ occurrences w (all_handed ms) + total w s)
unfolding executor_run
executor_run-total [] s b = (s, refl, b, λ w. omega arith)
executor_run-total (m ∷ ms) s b =
    let (t, e, c, k) = executor_step-total m s b in
    let (u, f, d, l) = executor_run-total ms t c in
    (
      u,
      rw (executor_run, e) f,
      d,
      λ w. omega (arith, k w, l w, occurrences-append w (handed m) (all_handed ms)),
    )

abbrev pub no_work : Executor
no_work = record { threads = no_threads; refused = [] }

-- However calls, failures of the start and threads interleave, no tuple is read or deleted after
-- it was deleted, the tuples that live are those of the threads that have not run, and each work
-- that was handed over was run as often as it was not given back and does not wait.
pub executor_run-IsBalanced :
    (ms : List Moment)
    → (t : Executor) × (executor_run ms no_work ≡ some t)
      × IsBalanced t.threads
      × ((w : Work) → occurrences w (all_handed ms) ≡ total w t)
executor_run-IsBalanced ms =
    let (t, e, b, k) = executor_run-total ms no_work refl in (t, e, b, λ w. omega (arith, k w))
