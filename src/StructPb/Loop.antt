-- ===== src/StructPb/Loop.antt =====
-- `run_loop` and `main` of example/performance_units/struct_pb/example.cpp: rounds of a batch of
-- calls, each of which is stretched to a given time by `usleep`.
use Prim.Native.Nat.{zero, suc}
use cpp_freshman.Prelude.{
  ℕ, ◌+◌, ◌-◌, ◌/◌, ◌%◌, ◌^◌, Option, none, some, List, [], ◌∷◌, ◌++◌, ltb, ◌==◌, if◌then◌else◌,
}

-- `double`, with a literal, the operations of `expect_us`, and the conversion to `int64_t`, which is
-- undefined for a value that does not fit.
pub record Floating (D : Type 0) : Type 0 where
  pub of_int : ℕ → D
  pub times : D → D → D
  pub over : D → D → D
  pub to_int64 : D → Option ℕ

-- The flags `qps`, `batch` and `concurrency`, which the server of the program cannot set.
pub record LoopFlags : Type 0 where
  pub qps : ℕ
  pub batch : ℕ
  pub concurrency : ℕ

-- What the flag `mode` is each time that it is read: it has a validator, so the server of the program
-- can set it at any time. First the tests of `main` and of the choice of `run_once`, as far as they
-- are reached, and then the two tests of one call.
pub record FirstModes : Type 0 where
  pub main_1 : ℕ
  pub main_2 : ℕ
  pub main_3 : ℕ
  pub main_4 : ℕ
  pub once_1 : ℕ
  pub once_2 : ℕ

pub record CallModes : Type 0 where
  pub call_3 : ℕ
  pub call_4 : ℕ

pub data Action : Type 0 where
  sets_pb : ℕ → Action
  sets_struct : ℕ → Action
  gets_pb : Action
  gets_struct : Action
  sleeps : ℕ → Action

unfoldable pub expect_us : {D : Type 0} → Floating D → LoopFlags → Option ℕ
expect_us d flags = d.to_int64 (
    d.times
      (d.times (d.over (d.times (d.of_int 1000) (d.of_int 1000)) (d.of_int flags.qps))
        (d.of_int flags.batch))
      (d.of_int flags.concurrency))

-- The function pointer, which stays uninitialised where neither test holds.
unfoldable pub run_once : FirstModes → Option (ℕ → Action)
run_once modes =
    if modes.once_1 == 1 then some sets_pb else if modes.once_2 == 2 then some sets_struct else none

-- One call in the batch; `none` is a call through the uninitialised pointer.
unfoldable pub call_once : Option (ℕ → Action) → CallModes → ℕ → Option Action
call_once once modes round =
    if modes.call_3 == 3
    then some gets_pb
    else if modes.call_4 == 4
    then some gets_struct
    else elim once [ none ↦ none | some f ↦ some (f round) ]

-- The calls of a batch from the `j`-th on, with what they read.
unfoldable pub call_batch : Option (ℕ → Action) → (ℕ → CallModes) → ℕ → ℕ → ℕ → Option (List Action)
unfolding call_once
call_batch once modes round j zero = some []
call_batch once modes round j (suc left) = elim (call_once once (modes j) round) [
  | none ↦ none
  | some a ↦ elim (call_batch once modes round (j + 1) left) [
    | none ↦ none
    | some acts ↦ some (a ∷ acts)
  ]
]

-- The clock at the begin and at the end of the batch, in nanoseconds; it does not go back.
pub record Clock : Type 0 where
  pub round_begin : ℕ
  pub round_end : ℕ

unfoldable pub use_us : Clock → ℕ
use_us c = (c.round_end - c.round_begin) / 1000

-- The argument of `usleep`, a `useconds_t` of 32 bits, and `none` where it is not called.
unfoldable pub sleep_us : ℕ → Clock → Option ℕ
unfolding use_us
sleep_us expect c = if ltb (use_us c) expect then some ((expect - use_us c) % 2 ^ 32) else none

abbrev pub slept : Option ℕ → List Action
slept none = []
slept (some us) = sleeps us ∷ []

-- What a round of the loop meets.
pub record Round : Type 0 where
  pub clock : Clock
  pub modes : ℕ → CallModes

-- The loop of a thread over the rounds until the program is asked to quit. `round` is a `size_t`.
unfoldable pub thread_loop :
    Option (ℕ → Action) → LoopFlags → ℕ → ℕ → List Round → Option (List Action)
unfolding call_batch sleep_us
thread_loop once flags expect round [] = some []
thread_loop once flags expect round (r ∷ rs) = elim (call_batch once r.modes round 0 flags.batch) [
  | none ↦ none
  | some acts ↦ elim (thread_loop once flags expect ((round + 1) % 2 ^ 64) rs) [
    | none ↦ none
    | some more ↦ some (acts ++ (slept (sleep_us expect r.clock) ++ more))
  ]
]

-- One list of actions for each thread.
unfoldable pub run_threads :
    Option (ℕ → Action) → LoopFlags → ℕ → List (List Round) → Option (List (List Action))
unfolding thread_loop
run_threads once flags expect [] = some []
run_threads once flags expect (rounds ∷ threads) = elim (thread_loop once flags expect 0 rounds) [
  | none ↦ none
  | some acts ↦ elim (run_threads once flags expect threads) [
    | none ↦ none
    | some more ↦ some (acts ∷ more)
  ]
]

-- `run_loop`, given the rounds of its `concurrency` threads.
unfoldable pub run_loop :
    {D : Type 0}
    → Floating D
    → FirstModes
    → LoopFlags
    → List (List Round)
    → Option (List (List Action))
unfolding expect_us run_once run_threads
run_loop d modes flags threads = elim (expect_us d flags) [
  | none ↦ none
  | some expect ↦ run_threads (run_once modes) flags expect threads
]

-- `main`, after the flags are parsed; it does nothing where none of its tests holds.
unfoldable pub struct_main :
    {D : Type 0}
    → Floating D
    → FirstModes
    → LoopFlags
    → List (List Round)
    → Option (List (List Action))
unfolding run_loop
struct_main d modes flags threads =
    if modes.main_1 == 1
    then run_loop d modes flags threads
    else if modes.main_2 == 2
    then run_loop d modes flags threads
    else if modes.main_3 == 3
    then run_loop d modes flags threads
    else if modes.main_4 == 4
    then run_loop d modes flags threads
    else some []
