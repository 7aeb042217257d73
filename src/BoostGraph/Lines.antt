-- ===== src/BoostGraph/Lines.antt =====
-- The lines of the graph output of example/boost/, and the neighbours in them.
use Prim.Native.Nat.{zero, suc}
use cpp_freshman.Prelude.{
  ℕ, ◌+◌, ◌≤◌, ◌<◌, List, [], ◌∷◌, ◌++◌, ◌≡◌, refl, sym, ◌∙◌, arith, ◌==◌, ltb, if◌then◌else◌,
  length, Bool-cases, inl, inr, false,
}
use cpp_freshman.BoostGraph.{
  occurrences, Edge, larger, directed_targets, undirected_targets, AdjacencyList, Line, add_edges,
  print_from, print_graph,
}

pub occurrences-append :
    (v : ℕ) (xs ys : List ℕ) → occurrences v (xs ++ ys) ≡ occurrences v xs + occurrences v ys
occurrences-append v [] ys = omega arith
occurrences-append v (x ∷ xs) ys = omega (arith, occurrences-append v xs ys)

-- How many of the edges lead from the one vertex to the other.
abbrev pub edges_between : ℕ → ℕ → List Edge → ℕ
edges_between u v [] = 0
edges_between u v (e ∷ es) =
    (if e.0 == u then (if e.1 == v then 1 else 0) else 0) + edges_between u v es

-- The smallest number above every end of the edges.
abbrev pub ends : List Edge → ℕ
ends [] = 0
ends (e ∷ es) = larger (ends es) (larger e.0 e.1 + 1)

-- The neighbours in the line of a vertex; a vertex without a line has none.
abbrev pub neighbours_of : ℕ → List Line → List ℕ
neighbours_of v [] = []
neighbours_of v (l ∷ ls) = if l.vertex == v then l.neighbours else neighbours_of v ls

module _ {G : Type 0} {targets : Edge → ℕ → List ℕ} (ops : AdjacencyList G targets) where
  neighbours_of-print_from :
      (u v n : ℕ) (g : G)
      → u ≤ v
      → v < u + n
      → neighbours_of v (print_from ops u n g) ≡ ops.adjacent_vertices v g
  unfolding print_from
  neighbours_of-print_from u v zero g le lt = absurd (omega arith)
  neighbours_of-print_from u v (suc n) g le lt = elim (Bool-cases (u == v)) [
    | inl e ↦ let f : u ≡ v = ground arith in rw e (rw f refl)
    | inr e ↦ rw e (neighbours_of-print_from (u + 1) v n g (ground arith) (omega arith))
  ]

  -- What all the edges add to a vertex.
  abbrev all_targets : List Edge → ℕ → List ℕ
  all_targets [] v = []
  all_targets (e ∷ es) v = targets e v ++ all_targets es v

  adjacent_vertices-add_edges :
      (es : List Edge) (v u : ℕ) (g : G)
      → occurrences u (ops.adjacent_vertices v (add_edges ops es g))
        ≡ occurrences u (ops.adjacent_vertices v g) + occurrences u (all_targets es v)
  unfolding add_edges
  adjacent_vertices-add_edges [] v u g = omega arith
  adjacent_vertices-add_edges (e ∷ es) v u g = omega (
    arith,
    adjacent_vertices-add_edges es v u (ops.add_edge e.0 e.1 g),
    ops.adjacent_vertices-add_edge e.0 e.1 v u g,
    occurrences-append u (targets e v) (all_targets es v),
  )

  num_vertices-add_edges :
      (es : List Edge) (g : G)
      → ops.num_vertices (add_edges ops es g) ≡ larger (ops.num_vertices g) (ends es)
  unfolding add_edges
  num_vertices-add_edges [] g = ground arith
  num_vertices-add_edges (e ∷ es) g =
      num_vertices-add_edges es (ops.add_edge e.0 e.1 g)
      ∙ rw (ops.num_vertices-add_edge e.0 e.1 g) (ground arith)

  neighbours_of_beyond :
      (u v n : ℕ) (g : G) → u + n ≤ v → neighbours_of v (print_from ops u n g) ≡ []
  unfolding print_from
  neighbours_of_beyond u v zero g le = refl
  neighbours_of_beyond u v (suc n) g le =
      let ne : (u == v) ≡ false = ground arith in
      rw ne (neighbours_of_beyond (u + 1) v n g (omega arith))

  length-print_from : (u n : ℕ) (g : G) → length (print_from ops u n g) ≡ n
  unfolding print_from
  length-print_from u zero g = refl
  length-print_from u (suc n) g = omega (arith, length-print_from (u + 1) n g)

  -- As many lines as the edges have ends, and the neighbours that the edges add, if edges add none to
  -- a vertex beyond their ends.
  print_graph-all_targets :
      (es : List Edge) (u v : ℕ)
      → (ends es ≤ v → occurrences u (all_targets es v) ≡ 0)
      → (length (print_graph ops es) ≡ ends es)
        × (occurrences u (neighbours_of v (print_graph ops es)) ≡ occurrences u (all_targets es v))
  unfolding print_graph
  print_graph-all_targets es u v none_beyond =
      let g = add_edges ops es ops.no_edges in
      let n : ops.num_vertices g ≡ ends es =
        num_vertices-add_edges es ops.no_edges ∙ rw ops.num_vertices-no_edges (ground arith) in
      let t : occurrences u (ops.adjacent_vertices v g) ≡ occurrences u (all_targets es v) =
        adjacent_vertices-add_edges es v u ops.no_edges
        ∙ rw (ops.adjacent_vertices-no_edges v) (omega arith) in
      (
        rw n (length-print_from 0 (ends es) g),
        elim (Bool-cases (ltb v (ends es))) [
          | inl lt ↦ rw (n, neighbours_of-print_from 0 v (ends es) g (omega arith) (ground arith)) t
          | inr ge ↦
              let le : ends es ≤ v = ground arith in
              rw (n, neighbours_of_beyond 0 v (ends es) g (omega arith)) (sym (none_beyond le))
        ],
      )

edges_between_beyond :
    (es : List Edge) (u v : ℕ)
    → ends es ≤ v
    → (edges_between v u es ≡ 0) × (edges_between u v es ≡ 0)
edges_between_beyond [] u v le = (refl, refl)
edges_between_beyond (e ∷ es) u v le = ground (arith, edges_between_beyond es u v)

all_directed :
    {G : Type 0} (ops : AdjacencyList G directed_targets) (es : List Edge) (u v : ℕ)
    → occurrences u (all_targets ops es v) ≡ edges_between v u es
all_directed ops [] u v = refl
all_directed ops (e ∷ es) u v = ground (
  arith,
  all_directed ops es u v,
  occurrences-append u (directed_targets e v) (all_targets ops es v),
)

all_undirected :
    {G : Type 0} (ops : AdjacencyList G undirected_targets) (es : List Edge) (u v : ℕ)
    → occurrences u (all_targets ops es v) ≡ edges_between v u es + edges_between u v es
all_undirected ops [] u v = refl
all_undirected ops (e ∷ es) u v = ground (
  arith,
  all_undirected ops es u v,
  occurrences-append u (undirected_targets e v) (all_targets ops es v),
)

-- The output for a directed graph, over any list of edges, has a line for each vertex up to the
-- largest end of an edge, and a vertex has another as its neighbour as often as an edge leads to it.
pub print_graph_directed :
    {G : Type 0} (ops : AdjacencyList G directed_targets) (es : List Edge) (u v : ℕ)
    → (length (print_graph ops es) ≡ ends es)
      × (occurrences u (neighbours_of v (print_graph ops es)) ≡ edges_between v u es)
print_graph_directed ops es u v =
    let (n, e) =
      print_graph-all_targets ops es u v
        (λ le. all_directed ops es u v ∙ (edges_between_beyond es u v le).0) in
    (n, e ∙ all_directed ops es u v)

-- The output for an undirected graph, over any list of edges, has a line for each vertex up to the
-- largest end of an edge; a vertex has another as its neighbour as often as an edge joins them,
-- which for a loop counts twice, and so the other has it as often.
pub print_graph_undirected :
    {G : Type 0} (ops : AdjacencyList G undirected_targets) (es : List Edge) (u v : ℕ)
    → (length (print_graph ops es) ≡ ends es)
      × (occurrences u (neighbours_of v (print_graph ops es))
          ≡ edges_between v u es + edges_between u v es)
      × (occurrences u (neighbours_of v (print_graph ops es))
          ≡ occurrences v (neighbours_of u (print_graph ops es)))
print_graph_undirected ops es u v =
    let (n, e) =
      print_graph-all_targets ops es u v
        (λ le. all_undirected ops es u v ∙ omega (arith, edges_between_beyond es u v le)) in
    let (m, f) =
      print_graph-all_targets ops es v u
        (λ le. all_undirected ops es v u ∙ omega (arith, edges_between_beyond es v u le)) in
    let p = e ∙ all_undirected ops es u v in (n, p, omega (arith, p, f ∙ all_undirected ops es v u))
