-- ===== src/Exercises/Factorial.antt =====
-- The loop of `Factorial` of example/boost/function_test.cpp, and the limit of an `int`.
use Prim.Native.Nat.{zero, suc}
use cpp_freshman.Prelude.{ℕ, ◌+◌, ◌-◌, ◌*◌, ◌^◌, ◌≤◌, ◌<◌, ◌≡◌, ◌⊎◌, inl, inr, refl, ◌∙◌, arith}
use cpp_freshman.Exercises.{returned, overflowed, factorial_loop, factorial, pos}

abbrev pub fact : ℕ → ℕ
fact zero = 1
fact (suc n) = fact n * (n + 1)

pub fact_mono : (n : ℕ) → fact n ≤ fact (suc n)
fact_mono n = omega arith

pub fact_below : (k n : ℕ) → fact n ≤ fact (k + n)
fact_below zero n = let e : 0 + n ≡ n = omega arith in rw e (omega arith)
fact_below (suc k) n =
    let e : suc k + n ≡ suc (k + n) = omega arith in
    rw e (omega (arith, fact_below k n, fact_mono (k + n)))

-- The factorials that fit.
pub fact_fits : (n : ℕ) → n ≤ 12 → fact n < 2 ^ 31
fact_fits n small =
    let e : (12 - n) + n ≡ 12 = omega arith in
    let le : fact n ≤ fact 12 = rw e at (fact_below (12 - n) n) in omega (arith, le)

pub one_round :
    (fuel n i result : ℕ)
    → i ≤ n
    → result * i < 2 ^ 31
    → factorial_loop (suc fuel) n i result ≡ factorial_loop fuel n (i + 1) (result * i)
unfolding factorial_loop
one_round fuel n i result le fits = ground arith

pub last_round :
    (fuel n i result : ℕ) → n < i → factorial_loop (suc fuel) n i result ≡ returned result
unfolding factorial_loop
last_round fuel n i result lt = ground arith

pub too_large :
    (fuel n i result : ℕ)
    → i ≤ n
    → 2 ^ 31 ≤ result * i
    → factorial_loop (suc fuel) n i result ≡ overflowed
unfolding factorial_loop
too_large fuel n i result le large = ground arith

-- The rounds up to `j`.
pub factorial_loop-fact :
    (j fuel n : ℕ)
    → j ≤ n
    → j ≤ 12
    → factorial_loop (j + fuel) n 1 1 ≡ factorial_loop fuel n (j + 1) (fact j)
unfolding factorial_loop
factorial_loop-fact zero fuel n le small = let e : 0 + fuel ≡ fuel = omega arith in rw e refl
factorial_loop-fact (suc j) fuel n le small =
    let e : suc j + fuel ≡ j + suc fuel = omega arith in
    let fits : fact j * (j + 1) < 2 ^ 31 = fact_fits (suc j) small in
    let f : suc j + 1 ≡ (j + 1) + 1 = omega arith in
    rw (e, f)
      (factorial_loop-fact j (suc fuel) n (omega arith) (omega arith)
        ∙ one_round fuel n (j + 1) (fact j) (omega arith) fits)

pub small_or_large : (n : ℕ) → (n ≤ 12) ⊎ (13 ≤ n)
small_or_large n = ground arith

pub rounds_that_fit : (n : ℕ) → n ≤ 12 → factorial_loop (suc n) n 1 1 ≡ returned (fact n)
rounds_that_fit n small =
    let e : suc n ≡ n + 1 = omega arith in
    rw e (
      factorial_loop-fact n 1 n (omega arith) small ∙ last_round 0 n (n + 1) (fact n) (omega arith))

pub rounds_too_large : (n : ℕ) → 13 ≤ n → factorial_loop (suc n) n 1 1 ≡ overflowed
rounds_too_large n large =
    let e : suc n ≡ 12 + suc (n - 12) = omega arith in
    rw e (
      factorial_loop-fact 12 (suc (n - 12)) n (omega arith) (omega arith)
      ∙ too_large (n - 12) n 13 (fact 12) large (omega arith))

-- For `n` up to 12 the result is the factorial of `n`; from 13 on the product overflows. The loop
-- ends within `n` + 1 rounds.
pub factorial_bounds :
    (n : ℕ)
    → ((n ≤ 12) × (factorial (pos n) ≡ returned (fact n)))
      ⊎ ((13 ≤ n) × (factorial (pos n) ≡ overflowed))
unfolding factorial
factorial_bounds n = elim (small_or_large n) [
  | inl small ↦ inl (small, rounds_that_fit n small)
  | inr large ↦ inr (large, rounds_too_large n large)
]
