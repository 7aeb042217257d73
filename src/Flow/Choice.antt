-- ===== src/Flow/Choice.antt =====
-- example/babylon/graph_condition.cpp: a start under a condition, a middle, an expression that
-- chooses between "E" and "F" for "H", and an end that joins two texts.
use Prim.Native.String.{String}
use cpp_freshman.Prelude.{
  Bool, true, false, Option, some, List, [], ◌∷◌, ◌++◌, ◌≡◌, Bytes, arith, if◌then◌else◌,
}
use cpp_freshman.Flow.{Value, text, flag, Datum, held, VertexSpec, to, to_on, Settles}

-- `StartProcessor`, `MiddelProcessor` and `EndProcessor`.
abbrev pub start_process : List (Option Value) → List Value
start_process (some (text a) ∷ []) = text a ∷ text a ∷ flag false ∷ []
start_process _ = []

abbrev pub middle_process : List (Option Value) → List Value
middle_process (some (text b) ∷ some (text c) ∷ []) = text b ∷ text c ∷ []
middle_process _ = []

abbrev pub end_process : List (Option Value) → List Value
end_process (some (text e) ∷ some (text h) ∷ []) = text (e ++ h) ∷ []
end_process _ = []

abbrev pub start_vertex : VertexSpec
start_vertex = record {
  depends = to_on "A" "C1" ∷ [];
  emits = "B" ∷ "C" ∷ "C2" ∷ [];
  process = start_process;
}

abbrev pub middle_vertex : VertexSpec
middle_vertex = record {
  depends = to "B" ∷ to "C" ∷ [];
  emits = "E" ∷ "F" ∷ [];
  process = middle_process;
}

abbrev pub end_vertex : VertexSpec
end_vertex = record { depends = to "E" ∷ to "H" ∷ []; emits = "G" ∷ []; process = end_process }

abbrev pub choice_graph : List VertexSpec
choice_graph = start_vertex ∷ middle_vertex ∷ end_vertex ∷ []

-- `ExpressionProcessor::apply(builder, "H", …)`, which the library evaluates once the condition and the chosen datum have values.
abbrev pub IsChoice : (String → Datum) → Bool → Value → Type 0
IsChoice final c v =
    (final "C2" ≡ held (flag c)) → final (if c then "E" else "F") ≡ held v → final "H" ≡ held v

-- Where the condition of the start holds, a settled run that evaluates the expression has the text
-- of "A" in "E", "F" and "H", and twice in "G".
pub choice_graph-Settles :
    (final : String → Datum)
    → (a : Bytes) → Settles final choice_graph
    → ((c : Bool) → (v : Value) → IsChoice final c v)
    → final "A" ≡ held (text a)
    → final "C1" ≡ held (flag true)
    → (final "E" ≡ held (text a))
      × (final "F" ≡ held (text a))
      × (final "H" ≡ held (text a))
      × (final "G" ≡ held (text (a ++ a)))
choice_graph-Settles final a s h fa fc = ground (arith, h false (text a))
