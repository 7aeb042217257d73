-- ===== src/Exercises.antt =====
-- Exercises that compute: `Factorial` of example/boost/function_test.cpp, and of example/googletest/
-- the order of base.h with the thread-local counter that myfuture.cpp uses.
pub mod Factorial
pub mod Counters
pub mod Templates
pub mod Tests
use Prim.Native.Nat.{zero, suc}
use cpp_freshman.Prelude.{
  ℕ, ◌+◌, ◌*◌, ◌^◌, Bool, true, false, ◌&&◌, List, [], ◌∷◌, ltb, leb, ◌==◌, if◌then◌else◌, Bytes,
  same_text,
}

-- The end of `Factorial`; an `int` that overflows is undefined, and a loop that has run out of fuel
-- says so.
pub data Factored : Type 0 where
  returned : ℕ → Factored
  overflowed : Factored
  running : Factored

-- An `int`: a number, or one less than the negative of a number.
pub data ℤ : Type 0 where
  pos negsuc : ℕ → ℤ

-- The loop, before the test of `i <= n`.
unfoldable pub factorial_loop : ℕ → ℕ → ℕ → ℕ → Factored
factorial_loop zero n i result = running
factorial_loop (suc fuel) n i result =
    let rest = factorial_loop fuel n (i + 1) (result * i) in
    if leb i n then (if ltb (result * i) (2 ^ 31) then rest else overflowed) else returned result

-- `Factorial`, with one round more than its argument; a negative number is below `i` at once.
unfoldable pub factorial : ℤ → Factored
unfolding factorial_loop
factorial (pos n) = factorial_loop (suc n) n 1 1
factorial (negsuc n) = returned 1

-- `TestData`. An `int` is its distance from the least one.
pub record TestData : Type 0 where
  pub a : ℕ
  pub b : ℕ
  pub name : Bytes

unfoldable pub is_equal : TestData → TestData → Bool
unfolding same_text
is_equal x y = x.a == y.a && (x.b == y.b && same_text x.name y.name)

unfoldable pub is_less : TestData → TestData → Bool
is_less x y = ltb x.a y.a && ltb x.b y.b

unfoldable pub is_greater : TestData → TestData → Bool
is_greater x y = ltb y.a x.a && ltb y.b x.b

-- A call of `increase` on some object in a thread, and the number that it prints.
pub record Printed : Type 0 where
  pub thread : ℕ
  pub count : ℕ

-- The `thread_local` counter of every thread, which is 1 before the first call.
abbrev pub Counts : Type 0
Counts = ℕ → ℕ

abbrev pub first_counts : Counts
first_counts i = 1

abbrev pub put_count : Counts → ℕ → ℕ → Counts
put_count counts i c j = if j == i then c else counts j

-- `increase` in the threads of the list, in that order.
unfoldable pub increase_all : Counts → List ℕ → List Printed
increase_all counts [] = []
increase_all counts (i ∷ is) =
    record { thread = i; count = counts i + 1 }
    ∷ increase_all (put_count counts i (counts i + 1)) is
