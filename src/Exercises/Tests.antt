-- ===== src/Exercises/Tests.antt =====
-- Runs of the exercises.
use cpp_freshman.Exercises.Templates.{plus_int, add_integral, func_optional}
use cpp_freshman.Prelude.{ℕ, some, none, ascii, ◌≤◌, true, [], ◌∷◌, ◌≡◌, ◌⊎◌, refl}
use cpp_freshman.Exercises.{
  factorial, returned, overflowed, pos, negsuc, TestData, is_less, is_equal, is_greater,
}
use cpp_freshman.Exercises.Factorial.{fact, factorial_bounds}

factorial_runs :
    (factorial (pos 5) ≡ returned 120)
    × (factorial (negsuc 0) ≡ returned 1)
    × (factorial (pos 13) ≡ overflowed)
unfolding factorial
factorial_runs = (refl, refl, refl)

factorial_bounds_example :
    ((12 ≤ 12) × (factorial (pos 12) ≡ returned (fact 12)))
    ⊎ ((13 ≤ 12) × (factorial (pos 12) ≡ overflowed))
factorial_bounds_example = factorial_bounds 12

abbrev point : ℕ → ℕ → TestData
point a b = record { a = a; b = b; name = 120 ∷ [] }

orders :
    (is_less (point 1 2) (point 2 3) ≡ true)
    × (is_greater (point 5 6) (point 4 5) ≡ true)
    × (is_equal (point 5 6) (point 5 6) ≡ true)
unfolding is_less is_greater is_equal
orders = (refl, refl, refl)

sum_five : add_integral 2147483651 2147483650 ≡ some 2147483653
unfolding add_integral plus_int
sum_five = refl

func_optional_runs :
    (func_optional [] ≡ some (record { type_at = 1; id = ascii "id"; name = ascii "name" }))
    × (func_optional (4 ∷ []) ≡ none)
    × (add_integral 4294967295 2147483649 ≡ none)
unfolding func_optional add_integral plus_int
func_optional_runs = (refl, refl, refl)
