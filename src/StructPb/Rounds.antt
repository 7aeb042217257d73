-- ===== src/StructPb/Rounds.antt =====
-- How long a round lasts, and how many calls a thread makes.
use Prim.Native.Nat.{zero, suc}
use cpp_freshman.Prelude.{
  ◌≢◌, ℕ, ◌+◌, ◌^◌, ◌<◌, Option, none, some, List, [], ◌∷◌, ◌++◌, ◌≡◌, ◌⊎◌, refl, ltb,
  if◌then◌else◌, arith,
}
use cpp_freshman.StructPb.Loop.{
  Action, sets_pb, sets_struct, gets_pb, gets_struct, sleeps, Clock, FirstModes, CallModes, Round,
  use_us, sleep_us, slept,
}

-- The time that `usleep` adds to a round.
abbrev pub slept_us : Option ℕ → ℕ
slept_us none = 0
slept_us (some us) = us

-- Where it fits, the round lasts no longer than it must.
pub sleep_us_exact :
    (expect : ℕ) (c : Clock)
    → expect < 2 ^ 32
    → use_us c + slept_us (sleep_us expect c) ≡ (if ltb (use_us c) expect then expect else use_us c)
unfolding sleep_us
sleep_us_exact expect c small = ground arith

-- The calls among the actions of a thread.
abbrev pub calls : List Action → ℕ
calls [] = 0
calls (sleeps us ∷ acts) = calls acts
calls (sets_pb n ∷ acts) = 1 + calls acts
calls (sets_struct n ∷ acts) = 1 + calls acts
calls (gets_pb ∷ acts) = 1 + calls acts
calls (gets_struct ∷ acts) = 1 + calls acts

pub calls-append : (a b : List Action) → calls (a ++ b) ≡ calls a + calls b
calls-append [] b = omega arith
calls-append (sleeps us ∷ acts) b = omega (arith, calls-append acts b)
calls-append (sets_pb n ∷ acts) b = omega (arith, calls-append acts b)
calls-append (sets_struct n ∷ acts) b = omega (arith, calls-append acts b)
calls-append (gets_pb ∷ acts) b = omega (arith, calls-append acts b)
calls-append (gets_struct ∷ acts) b = omega (arith, calls-append acts b)

pub calls-slept : (w : Option ℕ) → calls (slept w) ≡ 0
calls-slept none = refl
calls-slept (some us) = refl

-- `main` enters the loop.
abbrev pub Enters : FirstModes → Type 0
Enters m = (m.main_1 ≡ 1) ⊎ (m.main_2 ≡ 2) ⊎ (m.main_3 ≡ 3) ⊎ (m.main_4 ≡ 4)

-- A call with a function to call, and one without.
abbrev pub IsCallable : Option (ℕ → Action) → CallModes → Type 0
IsCallable once m = (m.call_3 ≡ 3) ⊎ (m.call_4 ≡ 4) ⊎ ((f : ℕ → Action) × (once ≡ some f))

abbrev pub IsWild : Option (ℕ → Action) → CallModes → Type 0
IsWild once m = (m.call_3 ≢ 3) × (m.call_4 ≢ 4) × (once ≡ none)

-- All calls of a batch from the `j`-th on, of a thread, and of all threads, and some call of them.
abbrev pub AllCalls : Option (ℕ → Action) → (ℕ → CallModes) → ℕ → ℕ → Type 0
AllCalls once modes j zero = Unit
AllCalls once modes j (suc left) = IsCallable once (modes j) × AllCalls once modes (j + 1) left

abbrev pub SomeCall : Option (ℕ → Action) → (ℕ → CallModes) → ℕ → ℕ → Type 0
SomeCall once modes j zero = ⊥
SomeCall once modes j (suc left) = IsWild once (modes j) ⊎ SomeCall once modes (j + 1) left

abbrev pub AllRounds : Option (ℕ → Action) → ℕ → List Round → Type 0
AllRounds once batch [] = Unit
AllRounds once batch (r ∷ rs) = AllCalls once r.modes 0 batch × AllRounds once batch rs

abbrev pub SomeRound : Option (ℕ → Action) → ℕ → List Round → Type 0
SomeRound once batch [] = ⊥
SomeRound once batch (r ∷ rs) = SomeCall once r.modes 0 batch ⊎ SomeRound once batch rs

abbrev pub AllThreads : Option (ℕ → Action) → ℕ → List (List Round) → Type 0
AllThreads once batch [] = Unit
AllThreads once batch (rs ∷ threads) = AllRounds once batch rs × AllThreads once batch threads

abbrev pub SomeThread : Option (ℕ → Action) → ℕ → List (List Round) → Type 0
SomeThread once batch [] = ⊥
SomeThread once batch (rs ∷ threads) = SomeRound once batch rs ⊎ SomeThread once batch threads

-- The pointer is one of the two functions, or uninitialised.
abbrev pub IsOnce : Option (ℕ → Action) → Type 0
IsOnce once = (once ≡ some sets_pb) ⊎ (once ≡ some sets_struct) ⊎ (once ≡ none)
