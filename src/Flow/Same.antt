-- ===== src/Flow/Same.antt =====
-- example/babylon/dependency/depend_same.cpp: the end has an optional dependency under a second
-- condition, which the start always emits as false.
use Prim.Native.String.{String}
use cpp_freshman.Prelude.{
  Bool, true, false, Option, none, some, List, [], ◌∷◌, ◌++◌, ◌≡◌, Bytes, arith, if◌then◌else◌,
}
use cpp_freshman.Flow.{
  Value, text, flag, Datum, empty, held, VertexSpec, to, to_on, Depend, Settles,
}
use cpp_freshman.Flow.Choice.{start_process, middle_process}

-- This file's own `StartProcessor` and `MiddelProcessor` have the bodies of graph_condition.cpp.
abbrev pub same_start_process : List (Option Value) → List Value
same_start_process = start_process

abbrev pub same_middle_process : List (Option Value) → List Value
same_middle_process = middle_process

-- `EndProcessor`: the second text is taken where its pointer is not null and it is not empty. An
-- empty text on the first place joins to the same as no text.
abbrev pub join_process : List (Option Value) → List Value
join_process (some (text e) ∷ some (text f) ∷ []) = text (e ++ f) ∷ []
join_process (some (text e) ∷ none ∷ []) = text e ∷ []
join_process _ = []

abbrev pub optional_on : String → String → Depend
optional_on name condition = record { name = name; condition = some condition; optional = true }

-- The vertices of `SetUp`.
abbrev pub same_start : VertexSpec
same_start = record {
  depends = to_on "A" "C1" ∷ [];
  emits = "B" ∷ "C" ∷ "C2" ∷ [];
  process = same_start_process;
}

abbrev pub same_middle : VertexSpec
same_middle = record {
  depends = to "B" ∷ to "C" ∷ [];
  emits = "E" ∷ "F" ∷ [];
  process = middle_process;
}

abbrev pub same_end : VertexSpec
same_end = record {
  depends = to "E" ∷ optional_on "F" "C2" ∷ [];
  emits = "G" ∷ [];
  process = join_process;
}

abbrev pub same_graph : List VertexSpec
same_graph = same_start ∷ same_middle ∷ same_end ∷ []

-- A settled run has in "G" the text of "A", once, where the condition of the start holds, and "G" is empty
-- where it does not. So where the test sees the text, its other assertion, that "G" is empty, fails.
pub same_graph-Settles :
    (final : String → Datum)
    → (c1 : Bool) → (a : Bytes) → Settles final same_graph
    → final "A" ≡ held (text a)
    → final "C1" ≡ held (flag c1)
    → final "G" ≡ (if c1 then held (text a) else empty)
same_graph-Settles final true a s fa fc = ground arith
same_graph-Settles final false a s fa fc = ground arith
