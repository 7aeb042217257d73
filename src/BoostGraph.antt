-- ===== src/BoostGraph.antt =====
-- The graphs of example/boost/: `graph_test` of my_graph_test.h, a directed one, and
-- `build_test_graph1` of graph_test.cpp, an undirected one. The graph is the library's, and a
-- parameter.
pub mod Lines
pub mod Tests
use Prim.Native.Nat.{zero, suc}
use cpp_freshman.Prelude.{ℕ, ◌+◌, ◌≤◌, List, [], ◌∷◌, ◌++◌, ◌≡◌, ◌==◌, ltb, if◌then◌else◌}

abbrev pub Edge : Type 0
Edge = ℕ × ℕ

-- The larger of two numbers of vertices.
abbrev pub larger : ℕ → ℕ → ℕ
larger n m = if ltb n m then m else n

-- The targets that an edge adds to a vertex, in a directed and in an undirected graph.
abbrev pub directed_targets : Edge → ℕ → List ℕ
directed_targets e v = if e.0 == v then e.1 ∷ [] else []

abbrev pub undirected_targets : Edge → ℕ → List ℕ
undirected_targets e v =
    let back : List ℕ = if e.1 == v then e.0 ∷ [] else [] in if e.0 == v then e.1 ∷ back else back

-- How often a vertex is in a list of neighbours.
abbrev pub occurrences : ℕ → List ℕ → ℕ
occurrences v [] = 0
occurrences v (w ∷ ws) = (if w == v then 1 else 0) + occurrences v ws

-- `boost::adjacency_list<listS, vecS, …>` and what its documentation promises: `add_edge` makes the
-- vertices up to both ends, and lists the edge once more at the one it leaves, or at both, in
-- whatever order.
pub record AdjacencyList (G : Type 0) (targets : Edge → ℕ → List ℕ) : Type 0 where
  pub no_edges : G
  pub add_edge : ℕ → ℕ → G → G
  pub num_vertices : G → ℕ
  pub adjacent_vertices : ℕ → G → List ℕ
  pub num_vertices-no_edges : num_vertices no_edges ≡ 0
  pub adjacent_vertices-no_edges : (v : ℕ) → adjacent_vertices v no_edges ≡ []
  pub num_vertices-add_edge :
      (a b : ℕ) (g : G) → num_vertices (add_edge a b g) ≡ larger (num_vertices g) (larger a b + 1)
  pub adjacent_vertices-add_edge :
      (a b v u : ℕ) (g : G)
      → occurrences u (adjacent_vertices v (add_edge a b g))
        ≡ occurrences u (adjacent_vertices v g) + occurrences u (targets (a, b) v)

-- A line of the output: the vertex, and its neighbours.
pub record Line : Type 0 where
  pub vertex : ℕ
  pub neighbours : List ℕ

module _ {G : Type 0} {targets : Edge → ℕ → List ℕ} (ops : AdjacencyList G targets) where
  -- The calls of `add_edge`, in order.
  unfoldable pub add_edges : List Edge → G → G
  add_edges [] g = g
  add_edges (e ∷ es) g = add_edges es (ops.add_edge e.0 e.1 g)

  -- The loop over the vertices, from one on, for as many as there are left.
  unfoldable pub print_from : ℕ → ℕ → G → List Line
  print_from v zero g = []
  print_from v (suc n) g =
      record { vertex = v; neighbours = ops.adjacent_vertices v g } ∷ print_from (v + 1) n g

  unfoldable pub print_graph : List Edge → List Line
  unfolding print_from add_edges
  print_graph es = let g = add_edges es ops.no_edges in print_from 0 (ops.num_vertices g) g

-- The edges of `graph_test`, and of `build_test_graph1`.
abbrev pub graph_test_edges : List Edge
graph_test_edges = (0, 1) ∷ (0, 2) ∷ (0, 5) ∷ (5, 1) ∷ (1, 4) ∷ (2, 3) ∷ (3, 4) ∷ []

abbrev pub build_test_graph1_edges : List Edge
build_test_graph1_edges = (0, 1) ∷ (0, 3) ∷ (1, 2) ∷ (2, 3) ∷ []
