-- ===== src/BoostGraph/Tests.antt =====
-- The two programs over a graph that is the list of its edges.
use cpp_freshman.Prelude.{ℕ, ◌+◌, List, [], ◌∷◌, ◌++◌, ◌≡◌, refl, length}
use cpp_freshman.BoostGraph.{
  occurrences, Edge, larger, directed_targets, undirected_targets, AdjacencyList, Line, print_graph,
  graph_test_edges, build_test_graph1_edges,
}
use cpp_freshman.BoostGraph.Lines.{occurrences-append, neighbours_of, print_graph_undirected}

record EdgeList : Type 0 where
  vertices : ℕ
  newest_first : List Edge

abbrev listed : (Edge → ℕ → List ℕ) → ℕ → List Edge → List ℕ
listed targets v [] = []
listed targets v (e ∷ es) = listed targets v es ++ targets e v

abbrev edge_list : (targets : Edge → ℕ → List ℕ) → AdjacencyList EdgeList targets
edge_list targets = record {
  no_edges = record { vertices = 0; newest_first = [] };
  add_edge = λ a b g. record {
    vertices = larger g.vertices (larger a b + 1);
    newest_first = (a, b) ∷ g.newest_first;
  };
  num_vertices = λ g. g.vertices;
  adjacent_vertices = λ v g. listed targets v g.newest_first;
  num_vertices-no_edges = refl;
  adjacent_vertices-no_edges = λ v. refl;
  num_vertices-add_edge = λ a b g. refl;
  adjacent_vertices-add_edge =
      λ a b v u g. occurrences-append u (listed targets v g.newest_first) (targets (a, b) v);
}

abbrev line : ℕ → List ℕ → Line
line v ws = record { vertex = v; neighbours = ws }

graph_test_lines :
    print_graph (edge_list directed_targets) graph_test_edges
    ≡ line 0 (1 ∷ 2 ∷ 5 ∷ [])
      ∷ line 1 (4 ∷ [])
      ∷ line 2 (3 ∷ [])
      ∷ line 3 (4 ∷ [])
      ∷ line 4 []
      ∷ line 5 (1 ∷ [])
      ∷ []
unfolding print_graph
graph_test_lines = refl

build_test_graph1_lines :
    print_graph (edge_list undirected_targets) build_test_graph1_edges
    ≡ line 0 (1 ∷ 3 ∷ []) ∷ line 1 (0 ∷ 2 ∷ []) ∷ line 2 (1 ∷ 3 ∷ []) ∷ line 3 (0 ∷ 2 ∷ []) ∷ []
unfolding print_graph
build_test_graph1_lines = refl

print_graph_undirected_example :
    (length (print_graph (edge_list undirected_targets) build_test_graph1_edges) ≡ 4)
    × (occurrences 3
          (neighbours_of 0 (print_graph (edge_list undirected_targets) build_test_graph1_edges))
        ≡ 1)
    × (occurrences 3
          (neighbours_of 0 (print_graph (edge_list undirected_targets) build_test_graph1_edges))
        ≡ occurrences 0
            (neighbours_of 3 (print_graph (edge_list undirected_targets) build_test_graph1_edges)))
print_graph_undirected_example =
    print_graph_undirected (edge_list undirected_targets) build_test_graph1_edges 3 0
