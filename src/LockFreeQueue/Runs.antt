-- ===== src/LockFreeQueue/Runs.antt =====
-- The runs of `LockFreeQueue` from its constructor, beside those of the atomic queue.
use cpp_freshman.Prelude.{
  ℕ, List, [], ◌∷◌, ◌≡◌, refl, sym, ap, ◌∙◌, arith, ◌==◌, Bool-cases, inl, inr,
}
use cpp_freshman.LockFreeQueue.{
  Memory, Point, idle, input_top, input_test, input_link, input_argument, input_help, input_advance,
  output_top, output_next, output_take, output_read, Event, Call, input, output, System, step, call,
  create, start, execute, update,
}
use cpp_freshman.LockFreeQueue.Atomic.{
  quiet, asking, Atomic, new, becomes, Shows, stops, calls_output, returns_output,
}
use cpp_freshman.LockFreeQueue.Shape.{Ghost, contents, IsSound, status_of, Simulates}
use cpp_freshman.LockFreeQueue.Links.{At-Follows}
use cpp_freshman.LockFreeQueue.Moves.{swap_tail-IsNew}
use cpp_freshman.LockFreeQueue.Refine.{
  IsShown, Simulates-becomes, silent-IsShown, call_input-IsShown, swap_tail-IsShown,
  return_input-IsShown, link-IsShown, take-IsShown, none-IsShown,
}

module _ {V : Type 0} (empty : V) (Final : Atomic V → Type 0) (m : Memory V) (threads : ℕ → Point)
    (g : Ghost) (a : Atomic V) (s : Simulates m threads g a) (i : ℕ) (es : List (Event V)) where
  point_at : (p : Point) → threads i ≡ p → IsSound m g i p
  point_at p e = rw (sym e) (s.sound i)

  status_at : (p : Point) → threads i ≡ p → a.status i ≡ status_of m p
  status_at p e = s.same_status i ∙ ap (status_of m) e

  silent_at :
      (p p' : Point)
      → threads i ≡ p
      → IsSound m g i p'
      → status_of m p' ≡ status_of m p
      → IsShown empty Final threads a es i (record { memory = m; point = p'; seen = [] })
  silent_at p p' e x st =
      silent-IsShown empty Final threads a es i m g s p' x (st ∙ sym (ap (status_of m) e))

  pub step-IsShown :
      (p : Point)
      → threads i ≡ p
      → (c : Call V) → IsSound m g i p
      → a.status i ≡ status_of m p
      → IsShown empty Final threads a es i (step empty m i p c)
  unfolding step call IsSound status_of IsShown
  step-IsShown idle e (input v) x q = call_input-IsShown empty Final threads a es i m g s v q
  step-IsShown idle e output x q = (λ k.
      calls_output a es i q
        (k g (becomes a i asking) (Simulates-becomes m threads g a s i output_top tt)))
  step-IsShown (input_top node) e c x q =
      silent_at (input_top node) (input_test node m.tail) e
        (x, record { position = g.tail_at; within = ground arith; there = sym s.list.tail_there })
        refl
  step-IsShown (input_test node cur) e c (x, y) q = elim (Bool-cases (m.next cur == 0)) [
    | inl f ↦ rw f (silent_at (input_test node cur) (input_link node cur) e (x, y) refl)
    | inr f ↦ rw f (
        silent_at (input_test node cur) (input_argument node cur) e
          (x, At-Follows m g i s.list g.tail_at cur s.list.tail_within y (ground (arith, f))) refl)
  ]
  step-IsShown (input_link node cur) e c (x, y) q = elim (Bool-cases (m.next cur == 0)) [
    | inl f ↦
        rw f (link-IsShown empty Final threads a es i m g s node cur y (ground (arith, f)) x q)
    | inr f ↦ rw f (silent_at (input_link node cur) (input_top node) e x refl)
  ]
  step-IsShown (input_argument node cur) e c (x, y) q =
      silent_at (input_argument node cur) (input_help node cur (m.next cur)) e (x, y) refl
  step-IsShown (input_help node cur next) e c (x, y) q =
      swap_tail-IsShown empty Final threads a es i m g s (input_top node) cur next y
        (swap_tail-IsNew m g i cur next i node x) (sym (ap (status_of m) e))
  step-IsShown (input_advance node cur) e c x q =
      return_input-IsShown empty Final threads a es i m g s cur node x q
  step-IsShown output_top e c x q =
      silent_at output_top (output_next m.head) e
        (record { position = g.head_at; within = ground arith; there = sym s.list.head_there }) refl
  step-IsShown (output_next first) e c x q = elim (Bool-cases (m.next first == 0)) [
    | inl f ↦ rw f (none-IsShown empty Final threads a es i m g s first x (ground (arith, f)) q)
    | inr f ↦ rw f (
        silent_at (output_next first) (output_take first (m.next first)) e
          (At-Follows m g i s.list g.head_at first (ground arith) x (ground (arith, f))) refl)
  ]
  step-IsShown (output_take first next) e c x q = elim (Bool-cases (m.head == first)) [
    | inl f ↦
        rw f (take-IsShown empty Final threads a es i m g s first next x (ground (arith, f)) q)
    | inr f ↦ rw f (silent_at (output_take first next) output_top e tt refl)
  ]
  step-IsShown (output_read next) e c x q = (λ k.
      returns_output a es i (m.log_info next) q
        (k g (becomes a i quiet) (Simulates-becomes m threads g a s i idle tt)))

-- What the memory and the threads of a system stand for.
pub record StandsFor {V : Type 0} (s : System V) (a : Atomic V) : Type 0 where
  pub g : Ghost
  pub simulates : Simulates s.memory s.threads g a

module _ {V : Type 0} (empty : V) where
  execute_from-Shows :
      (schedule : List (ℕ × Call V)) (s : System V) (g : Ghost) (a : Atomic V)
      → Simulates s.memory s.threads g a
      → Shows empty (StandsFor (execute empty schedule s).0) a (execute empty schedule s).1
  unfolding execute IsShown
  execute_from-Shows [] s g a x = stops a (record { g = g; simulates = x })
  execute_from-Shows ((i, c) ∷ schedule) s g a x =
      let taken = step empty s.memory i (s.threads i) c in
      let s' : System V = record {
        memory = taken.memory;
        threads = update s.threads i taken.point;
      } in
      let later = execute empty schedule s' in
      step-IsShown empty (StandsFor later.0) s.memory s.threads g a x i later.1 (s.threads i) refl c
        (x.sound i) (x.same_status i) (λ g' a' x'. execute_from-Shows schedule s' g' a' x')

  pub start-Simulates :
      Simulates
        (start empty).memory
        (start empty).threads
        (record { chain = (λ k. 1); owner = (λ b. 0); head_at = 0; size = 0; tail_at = 0 })
        new
  unfolding start create IsSound status_of contents
  start-Simulates = record {
    list = record {
      linked = (λ k b. ground arith);
      ends = refl;
      positive = (λ k b. ground arith);
      used = (λ k b. ground arith);
      distinct = (λ j k b b' e. ground arith);
      head_there = refl;
      tail_there = refl;
      tail_within = ground arith;
      tail_near = ground arith;
    };
    sound = (λ i. tt);
    same_status = (λ i. refl);
    same_values = refl;
  }

  -- Every run of threads that call `input` and `output` on a queue from its constructor, under any
  -- schedule of their single memory accesses, shows calls and returns that the atomic queue can
  -- show too, in the same order and with the same values; and at its end the nodes that follow
  -- `head` hold the values of the atomic queue, first to last.
  pub execute-Shows :
      (schedule : List (ℕ × Call V))
      → Shows empty
          (StandsFor (execute empty schedule (start empty)).0)
          new
          (execute empty schedule (start empty)).1
  execute-Shows schedule = execute_from-Shows schedule (start empty) _ new start-Simulates
