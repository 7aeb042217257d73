-- ===== src/Flow/Tests.antt =====
-- Runs of the example graphs, with the values of the programs.
use Prim.Native.String.{String}
use package.text.Mathlib.Text.{◌==◌}
use cpp_freshman.Prelude.{
  Bool, true, false, List, [], ◌∷◌, ◌++◌, ◌≡◌, refl, Bytes, ascii, arith, if◌then◌else◌,
}
use cpp_freshman.Flow.{Value, text, flag, int, Datum, absent, empty, held, Settles}
use cpp_freshman.Flow.Choice.{choice_graph, IsChoice, choice_graph-Settles}
use cpp_freshman.Flow.Same.{same_graph}
use cpp_freshman.Flow.Start.{sum_graph}
use cpp_freshman.Flow.Conditions.{conditions_graph}

abbrev lookup : List (String × Datum) → String → Datum
lookup [] name = absent
lookup ((n, d) ∷ more) name = if n == name then d else lookup more name

abbrev sum_final : String → Datum
sum_final = lookup (
    ("A", held (int 100))
    ∷ ("B", held (int 200))
    ∷ ("E", held (int 2))
    ∷ ("C", held (int 300))
    ∷ ("F", held (int 600))
    ∷ ("G", held (int 702))
    ∷ [])

abbrev id : Bytes
id = ascii "10086"

abbrev choice_final : String → Datum
choice_final = lookup (
    ("A", held (text id))
    ∷ ("C1", held (flag true))
    ∷ ("B", held (text id))
    ∷ ("C", held (text id))
    ∷ ("C2", held (flag false))
    ∷ ("E", held (text id))
    ∷ ("F", held (text id))
    ∷ ("H", held (text id))
    ∷ ("G", held (text (id ++ id)))
    ∷ [])

choice_final-IsChoice : (c : Bool) (v : Value) → IsChoice choice_final c v
choice_final-IsChoice true v = ground arith
choice_final-IsChoice false v = λ p q. q

choice_final-Settles : Settles choice_final choice_graph
choice_final-Settles = ground arith

choice_graph-Settles_example :
    (choice_final "E" ≡ held (text id))
    × (choice_final "F" ≡ held (text id))
    × (choice_final "H" ≡ held (text id))
    × (choice_final "G" ≡ held (text (ascii "1008610086")))
choice_graph-Settles_example =
    choice_graph-Settles choice_final id choice_final-Settles choice_final-IsChoice refl refl

abbrev same_final : String → Datum
same_final = lookup (
    ("A", held (text id))
    ∷ ("C1", held (flag true))
    ∷ ("B", held (text id))
    ∷ ("C", held (text id))
    ∷ ("C2", held (flag false))
    ∷ ("E", held (text id))
    ∷ ("F", held (text id))
    ∷ ("G", held (text id))
    ∷ [])

abbrev conditions_final : String → Datum
conditions_final = lookup (
    ("A", held (text id))
    ∷ ("C1", held (flag true))
    ∷ ("C2", held (flag false))
    ∷ ("C3", held (flag true))
    ∷ ("X", held (text id))
    ∷ ("Y", empty)
    ∷ ("Z", held (text id))
    ∷ [])

sum_final-Settles : Settles sum_final sum_graph
sum_final-Settles = ground arith

conditions_final-Settles : Settles conditions_final conditions_graph
conditions_final-Settles = ground arith

same_final-Settles : Settles same_final same_graph
same_final-Settles = ground arith
