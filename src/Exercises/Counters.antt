-- ===== src/Exercises/Counters.antt =====
-- The order on `TestData`, and the counters of several threads.
use Prim.Native.Nat.{zero, suc}
use cpp_freshman.Prelude.{
  ℕ, ◌+◌, true, false, List, [], ◌∷◌, ◌≡◌, refl, arith, ◌==◌, if◌then◌else◌, Bytes, Bool-cases, inl,
  inr,
}
use cpp_freshman.Exercises.{is_less, Printed, Counts, first_counts, put_count, increase_all}

-- `operator<` is no strict weak order, as `std::sort` asks: a value that is incomparable to two
-- others can stand between one that is less than the other.
pub is_less_not_weak :
    (a b : ℕ) (s t u : Bytes)
    → (is_less (record { a = a; b = b; name = s }) (record { a = a; b = b + 1; name = t }) ≡ false)
      × (is_less (record { a = a; b = b + 1; name = t }) (record { a = a; b = b; name = s })
          ≡ false)
      × (is_less (record { a = a; b = b + 1; name = t }) (record { a = a + 1; b = b + 1; name = u })
          ≡ false)
      × (is_less (record { a = a + 1; b = b + 1; name = u }) (record { a = a; b = b + 1; name = t })
          ≡ false)
      × (is_less (record { a = a; b = b; name = s }) (record { a = a + 1; b = b + 1; name = u })
          ≡ true)
unfolding is_less
is_less_not_weak a b s t u = ground arith

-- What one thread prints.
abbrev pub printed_by : ℕ → List Printed → List ℕ
printed_by i [] = []
printed_by i (p ∷ ps) = let rest = printed_by i ps in if p.thread == i then p.count ∷ rest else rest

-- How often a thread has its turn.
abbrev pub turns : ℕ → List ℕ → ℕ
turns i [] = 0
turns i (j ∷ js) = let rest = turns i js in if j == i then suc rest else rest

abbrev pub numbers_from : ℕ → ℕ → List ℕ
numbers_from c zero = []
numbers_from c (suc n) = (c + 1) ∷ numbers_from (c + 1) n

pub printed_by-increase_all_from :
    (i : ℕ) (counts : Counts) (is : List ℕ)
    → printed_by i (increase_all counts is) ≡ numbers_from (counts i) (turns i is)
unfolding increase_all
printed_by-increase_all_from i counts [] = refl
printed_by-increase_all_from i counts (j ∷ js) = elim (Bool-cases (j == i)) [
  | inl e ↦ ground (arith, printed_by-increase_all_from i (put_count counts j (counts j + 1)) js)
  | inr e ↦ ground (arith, printed_by-increase_all_from i (put_count counts j (counts j + 1)) js)
]

-- However threads interleave, each prints the numbers from 2 on, one for each of its calls, on
-- whatever objects it makes them.
pub printed_by-increase_all :
    (i : ℕ) (is : List ℕ)
    → printed_by i (increase_all first_counts is) ≡ numbers_from 1 (turns i is)
printed_by-increase_all i is = printed_by-increase_all_from i first_counts is
