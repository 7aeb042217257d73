-- ===== src/Flow/Start.antt =====
-- example/babylon/graph_start.cpp: three processors that add and multiply, wired into a graph.
use Prim.Native.String.{String}
use cpp_freshman.Prelude.{ℕ, ◌+◌, ◌*◌, ◌%◌, Option, some, List, [], ◌∷◌, ◌≡◌, arith}
use cpp_freshman.Flow.{Value, int, Datum, held, VertexSpec, to, Settles}

-- `int` arithmetic in 32 bits; where a sum or a product does not fit, it wraps round here.
abbrev pub add_int : ℕ → ℕ → ℕ
add_int x y = (x + y) % 0x100000000

abbrev pub multiply_int : ℕ → ℕ → ℕ
multiply_int x y = (x * y) % 0x100000000

-- `process` of the three; data of other types than `int` do not occur.
abbrev pub plus_process : List (Option Value) → List Value
plus_process (some (int x) ∷ some (int y) ∷ []) = int (add_int x y) ∷ []
plus_process _ = []

abbrev pub multi_process : List (Option Value) → List Value
multi_process (some (int z) ∷ some (int a) ∷ []) = int (multiply_int z a) ∷ []
multi_process _ = []

abbrev pub all_process : List (Option Value) → List Value
all_process (some (int x) ∷ some (int a) ∷ some (int b) ∷ []) = int (add_int (add_int x a) b) ∷ []
all_process _ = []

-- The vertices that `main` adds.
abbrev pub plus_vertex : VertexSpec
plus_vertex = record { depends = to "A" ∷ to "B" ∷ []; emits = "C" ∷ []; process = plus_process }

abbrev pub multi_vertex : VertexSpec
multi_vertex = record { depends = to "C" ∷ to "E" ∷ []; emits = "F" ∷ []; process = multi_process }

abbrev pub all_vertex : VertexSpec
all_vertex = record {
  depends = to "A" ∷ to "E" ∷ to "F" ∷ [];
  emits = "G" ∷ [];
  process = all_process;
}

abbrev pub sum_graph : List VertexSpec
sum_graph = plus_vertex ∷ multi_vertex ∷ all_vertex ∷ []

-- A settled run of the graph in which "A", "B" and "E" were emitted has in "G" the sum of "A", "E"
-- and the product of "A" plus "B" with "E", in 32 bits; no datum on the way is absent.
pub sum_graph-Settles :
    (final : String → Datum)
    → (a b e : ℕ) → Settles final sum_graph
    → final "A" ≡ held (int a)
    → final "B" ≡ held (int b)
    → final "E" ≡ held (int e)
    → (final "C" ≡ held (int (add_int a b)))
      × (final "F" ≡ held (int (multiply_int (add_int a b) e)))
      × (final "G" ≡ held (int (add_int (add_int a e) (multiply_int (add_int a b) e))))
sum_graph-Settles final a b e s fa fb fe = ground arith
