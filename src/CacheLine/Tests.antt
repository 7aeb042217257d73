-- ===== src/CacheLine/Tests.antt =====
-- Runs of two counting threads.
use Prim.Native.Nat.{zero, suc}
use cpp_freshman.Prelude.{ℕ, none, some, List, [], ◌∷◌, ◌≡◌, refl, arith}
use cpp_freshman.CacheLine.{
  Cells, Turn, first_turn, second_turn, false_sharing_example, no_false_sharing_example,
}
use cpp_freshman.CacheLine.Runs.{examples_print}

abbrev clean : Cells
clean x = 0

-- Turns by turns, and one thread after the other.
abbrev in_turn : ℕ → List Turn
in_turn zero = []
in_turn (suc n) = first_turn ∷ second_turn ∷ in_turn n

abbrev one_then_other : List Turn
one_then_other =
    second_turn
    ∷ second_turn
    ∷ second_turn
    ∷ second_turn
    ∷ second_turn
    ∷ second_turn
    ∷ second_turn
    ∷ in_turn 0

too_few : false_sharing_example 128 clean 2 one_then_other ≡ none
unfolding false_sharing_example
too_few = refl

examples_print_example :
    (false_sharing_example 128 clean 2 (in_turn 7) ≡ some (2, 2))
    × (no_false_sharing_example 128 clean 2 (in_turn 9) ≡ some (2, 2))
examples_print_example =
    examples_print 128 2 clean (in_turn 7) (in_turn 9) (λ x. omega arith) (omega arith)
      (omega arith, omega arith) (omega arith, omega arith)
