-- ===== src/Flow/Conditions.antt =====
-- example/babylon/dependency/depend_condition.cpp: three processors that pass "A" on, each under a
-- condition of its own.
use Prim.Native.String.{String}
use cpp_freshman.Prelude.{Bool, Option, some, List, [], ◌∷◌, ◌≡◌, Bytes, arith, if◌then◌else◌}
use cpp_freshman.Flow.{Value, text, flag, Datum, empty, held, VertexSpec, to_on, Settles}

-- `ConstProcessor` and `MutableProcessor` have the same body.
abbrev pub const_process : List (Option Value) → List Value
const_process (some (text a) ∷ []) = text a ∷ []
const_process _ = []

abbrev pub mutable_process : List (Option Value) → List Value
mutable_process (some (text a) ∷ []) = text a ∷ []
mutable_process _ = []

abbrev pub const_vertex1 : VertexSpec
const_vertex1 = record { depends = to_on "A" "C1" ∷ []; emits = "X" ∷ []; process = const_process }

abbrev pub const_vertex2 : VertexSpec
const_vertex2 = record { depends = to_on "A" "C2" ∷ []; emits = "Y" ∷ []; process = const_process }

abbrev pub mutable_vertex : VertexSpec
mutable_vertex = record {
  depends = to_on "A" "C3" ∷ [];
  emits = "Z" ∷ [];
  process = mutable_process;
}

abbrev pub conditions_graph : List VertexSpec
conditions_graph = const_vertex1 ∷ const_vertex2 ∷ mutable_vertex ∷ []

abbrev pub passed : Bool → Bytes → Datum
passed c a = if c then held (text a) else empty

-- Whatever the three conditions are, each of the three outputs of a settled run has the text of
-- "A" where its own condition holds, and is empty where it does not.
pub conditions_graph-Settles :
    (final : String → Datum)
    → (c1 c2 c3 : Bool) → (a : Bytes) → Settles final conditions_graph
    → final "A" ≡ held (text a)
    → final "C1" ≡ held (flag c1)
    → final "C2" ≡ held (flag c2)
    → final "C3" ≡ held (flag c3)
    → (final "X" ≡ passed c1 a) × (final "Y" ≡ passed c2 a) × (final "Z" ≡ passed c3 a)
conditions_graph-Settles final c1 c2 c3 a s fa f1 f2 f3 = ground arith
