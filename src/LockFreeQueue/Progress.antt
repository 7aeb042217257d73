-- ===== src/LockFreeQueue/Progress.antt =====
-- The states of `LockFreeQueue` that a schedule reaches, and a thread that goes on alone from
-- there.
use cpp_freshman.Prelude.{
  ℕ, zero, suc, ◌+◌, ◌≤◌, ◌<◌, List, [], ◌∷◌, ◌++◌, ◌≡◌, ◌≢◌, refl, sym, ap, ◌∙◌, arith, ◌==◌,
  if◌then◌else◌, Bool-cases, ◌⊎◌, inl, inr,
}
use cpp_freshman.LockFreeQueue.{
  Memory, Point, idle, input_top, input_test, input_link, input_argument, input_help, input_advance,
  output_top, output_next, output_take, output_read, Event, Call, System, step, call, swap_tail,
  start, execute, update,
}
use cpp_freshman.LockFreeQueue.Atomic.{
  quiet, given, put, asking, took, Atomic, becomes, holds, new, Shows, stops, calls_input, puts,
  returns_input, calls_output, takes, finds_none, returns_output,
}
use cpp_freshman.LockFreeQueue.Shape.{Ghost, last, Follows, IsList, IsSound}
use cpp_freshman.LockFreeQueue.Links.{le_cases}
use cpp_freshman.LockFreeQueue.Keep.{update-same}
use cpp_freshman.LockFreeQueue.Refine.{IsShown}
use cpp_freshman.LockFreeQueue.Runs.{StandsFor, step-IsShown, execute-Shows}

module _ {V : Type 0} (empty : V) where
  -- What a run of the atomic queue ends in.
  Shows-Final :
      {Final : Atomic V → Type 0}
      → (a : Atomic V) → (es : List (Event V)) → Shows empty Final a es
      → (a' : Atomic V) × Final a'
  Shows-Final a es (stops _ x) = (a, x)
  Shows-Final a es (calls_input _ later i v q x) = Shows-Final (becomes a i (given v)) later x
  Shows-Final a es (puts _ _ i v q x) = Shows-Final (holds a (a.values ++ v ∷ []) i put) es x
  Shows-Final a es (returns_input _ later i q x) = Shows-Final (becomes a i quiet) later x
  Shows-Final a es (calls_output _ later i q x) = Shows-Final (becomes a i asking) later x
  Shows-Final a es (takes _ _ i v vs q r x) = Shows-Final (holds a vs i (took v)) es x
  Shows-Final a es (finds_none _ _ i q r x) = Shows-Final (becomes a i (took empty)) es x
  Shows-Final a es (returns_output _ later i v q x) = Shows-Final (becomes a i quiet) later x

  -- The state of a system after one step of thread `i`.
  unfoldable pub after : ℕ → Call V → System V → System V
  unfolding step call swap_tail
  after i c s =
      let taken = step empty s.memory i (s.threads i) c in
      record { memory = taken.memory; threads = update s.threads i taken.point }

  step-StandsFor :
      (i : ℕ) (c : Call V) (s : System V) (a : Atomic V)
      → StandsFor s a
      → (a' : Atomic V) × StandsFor (after i c s) a'
  unfolding after IsShown
  step-StandsFor i c s a x = Shows-Final a _ (
      step-IsShown empty (StandsFor (after i c s)) s.memory s.threads x.g a x.simulates i []
        (s.threads i) refl c (x.simulates.sound i) (x.simulates.same_status i)
        (λ g' a' x'. stops a' (record { g = g'; simulates = x' })))

module _ {V : Type 0} (m : Memory V) (g : Ghost) (l : IsList m g) where
  -- `tail` is the last node or the one before it.
  tail-IsNear : (m.next m.tail ≡ 0) ⊎ (m.next (m.next m.tail) ≡ 0)
  tail-IsNear = elim (le_cases g.tail_at (last g) l.tail_within) [
    | inl p ↦ inl (ap m.next (l.tail_there ∙ ap g.chain p) ∙ l.ends)
    | inr b ↦ inr (
        ap (λ a. m.next (m.next a)) l.tail_there
        ∙ ap m.next (l.linked g.tail_at b)
        ∙ ap (λ k. m.next (g.chain k)) (ground (arith, l.tail_near))
        ∙ l.ends)
  ]

-- A bound on the steps that are left to a thread which runs alone, before it is idle.
module _ {V : Type 0} (m : Memory V) where
  abbrev top_left : ℕ
  top_left = if m.next m.tail == 0 then 4 else 8

  abbrev help_left : ℕ → ℕ
  help_left cur = if m.tail == cur then 5 else 1 + top_left

  unfoldable left : Point → ℕ
  left idle = 0
  left (input_top node) = top_left
  left (input_test node cur) = if m.next cur == 0 then 3 else 2 + help_left cur
  left (input_link node cur) = if m.next cur == 0 then 2 else 1 + top_left
  left (input_argument node cur) = 1 + help_left cur
  left (input_help node cur next) = help_left cur
  left (input_advance node cur) = 1
  left output_top = 4
  left (output_next first) = if m.head == first then 3 else 2 + 5
  left (output_take first next) = if m.head == first then 2 else 5
  left (output_read next) = 1

  left-bound : (p : Point) → left p ≤ 11
  unfolding left
  left-bound p = ground arith

module _ {V : Type 0} (empty : V) (m : Memory V) (g : Ghost) (l : IsList m g) (i : ℕ) where
  -- The node that a successful help moves `tail` to is the last.
  help-last : (cur next : ℕ) → Follows g cur next → m.tail ≡ cur → m.next next ≡ 0
  help-last cur next x e =
      let reached : m.next m.tail ≡ next =
        ap m.next (e ∙ sym x.before) ∙ l.linked x.position x.within ∙ x.after in
      ground (
        arith,
        reached,
        tail-IsNear m g l,
        l.positive (suc x.position) (ground (arith, x.within)),
        x.after,
        ap m.next reached,
      )

  step-left :
      (p : Point)
      → (c : Call V) → IsSound m g i p
      → p ≢ idle
      → left (step empty m i p c).memory (step empty m i p c).point < left m p
  unfolding step left swap_tail IsSound
  step-left idle c x d = elim (d refl) [ ]
  step-left (input_top node) c x d = ground (arith, tail-IsNear m g l)
  step-left (input_test node cur) c x d = ground arith
  step-left (input_link node cur) c x d = ground arith
  step-left (input_argument node cur) c x d = ground arith
  step-left (input_help node cur next) c (x, y) d = elim (Bool-cases (m.tail == cur)) [
    | inl e ↦ ground (arith, help-last cur next y (ground (arith, e)))
    | inr e ↦ ground arith
  ]
  step-left (input_advance node cur) c x d = ground arith
  step-left output_top c x d = ground arith
  step-left (output_next first) c x d = ground arith
  step-left (output_take first next) c x d = ground arith
  step-left (output_read next) c x d = ground arith

abbrev pub turns : {A : Type 0} → ℕ → A → List A
turns zero x = []
turns (suc n) x = x ∷ turns n x

idle_or_not : (p : Point) → (p ≡ idle) ⊎ (p ≢ idle)
idle_or_not p = ground arith

module _ {V : Type 0} (empty : V) (i : ℕ) (c : Call V) where
  -- The thread is idle after at most `n` steps of its own.
  pub record Finishes (n : ℕ) (s : System V) : Type 0 where
    pub steps : ℕ
    pub within : steps ≤ n
    pub finished : (execute empty (turns steps (i, c)) s).0.threads i ≡ idle

  after-left :
      (s : System V) (a : Atomic V)
      → StandsFor s a
      → s.threads i ≢ idle
      → left (after empty i c s).memory ((after empty i c s).threads i)
        < left s.memory (s.threads i)
  unfolding after
  after-left s a x d =
      let taken = step empty s.memory i (s.threads i) c in
      rw (update-same s.threads i i taken.point refl)
        (step-left empty s.memory x.g x.simulates.list i (s.threads i) c (x.simulates.sound i) d)

  Finishes-left :
      (n : ℕ) (s : System V) (a : Atomic V)
      → StandsFor s a
      → left s.memory (s.threads i) ≤ n
      → Finishes n s
  unfolding execute after
  Finishes-left zero s a x h = elim (idle_or_not (s.threads i)) [
    | inl e ↦ record { steps = 0; within = ground arith; finished = e }
    | inr d ↦ ground (arith, after-left s a x d)
  ]
  Finishes-left (suc n) s a x h = elim (idle_or_not (s.threads i)) [
    | inl e ↦ record { steps = 0; within = ground arith; finished = e }
    | inr d ↦
        let (a', x') = step-StandsFor empty i c s a x in
        let rest = Finishes-left n (after empty i c s) a' x' (ground (arith, after-left s a x d)) in
        record {
          steps = suc rest.steps;
          within = ground (arith, rest.within);
          finished = rest.finished;
        }
  ]

module _ {V : Type 0} (empty : V) where
  -- Whatever a schedule has done to a queue from its constructor, `tail` points to the last node or
  -- to the one before it.
  pub execute-tail :
      (schedule : List (ℕ × Call V))
      → let m = (execute empty schedule (start empty)).0.memory in
        (m.next m.tail ≡ 0) ⊎ (m.next (m.next m.tail) ≡ 0)
  execute-tail schedule =
      let (a, x) = Shows-Final empty new _ (execute-Shows empty schedule) in
      tail-IsNear (execute empty schedule (start empty)).0.memory x.g x.simulates.list

  -- Whatever a schedule has done to a queue from its constructor, a thread that then runs alone
  -- is out of its call of `input` or `output` after at most 11 memory accesses of its own.
  pub execute-Finishes :
      (schedule : List (ℕ × Call V))
      → (i : ℕ) → (c : Call V) → Finishes empty i c 11 (execute empty schedule (start empty)).0
  execute-Finishes schedule i c =
      let (a, x) = Shows-Final empty new _ (execute-Shows empty schedule) in
      let s = (execute empty schedule (start empty)).0 in
      Finishes-left empty i c 11 s a x (left-bound s.memory (s.threads i))
