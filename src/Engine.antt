-- ===== src/Engine.antt =====
-- example/brpc/plugins/framework/graph_engine.cpp: the pools of graphs by name, and the builder that
-- is filled from a configuration. The graph library, its pool and the reader of XML are parameters.
pub mod Config
pub mod Sharing
pub mod Service
pub mod Tests
use cpp_freshman.Prelude.{
  ℕ, ◌+◌, ◌≤◌, Bool, true, false, Option, none, some, List, [], ◌∷◌, ◌++◌, ◌≡◌, Bytes, same_text,
  length, if◌then◌else◌,
}

-- A vertex and an expression of the configuration.
pub record VertexMessage : Type 0 where
  pub name : Bytes
  pub emits : List Bytes
  pub depends : List Bytes

pub record Expression : Type 0 where
  pub exp_name : Bytes
  pub exp_val : Bytes

-- `read_xml` of the two files and the children that the program asks for; `none` is an exception,
-- which ends the process, since `init_pool` is `noexcept`.
pub record ConfigFiles : Type 0 where
  pub vertices : Option (List VertexMessage)
  pub expressions : Option (List Expression)

-- What is asked of the builder, in order.
pub data Command : Type 0 where
  set_executor : Command
  add_vertex : Bytes → Command
  named_depend : Bytes → Bytes → Command
  named_emit : Bytes → Bytes → Command
  apply_expression : Bytes → Bytes → Command
  apply_expressions : Command
  finish : Command

-- `babylon::ObjectPool<Graph>`. A graph is its number. `pop` answers `none` where the pool is empty,
-- and then the creator is called; a pool of one graph gives that one; `push` keeps a graph in an
-- empty pool that has room.
pub record ObjectPool (Pool : Type 0) : Type 0 where
  pub new_pool : Pool
  pub free : Pool → List ℕ
  pub capacity : Pool → ℕ
  pub reserve_and_clear : ℕ → Pool → Pool
  pub pop : Pool → Option ℕ × Pool
  pub push : ℕ → Pool → Pool
  pub free-reserve_and_clear : (n : ℕ) (p : Pool) → free (reserve_and_clear n p) ≡ []
  pub capacity-reserve_and_clear : (n : ℕ) (p : Pool) → capacity (reserve_and_clear n p) ≡ n
  pub pop_empty : (p : Pool) → free p ≡ [] → pop p ≡ (none, p)
  pub pop_one :
      (g : ℕ) (p : Pool)
      → free p ≡ g ∷ []
      → (q : Pool) × (pop p ≡ (some g, q)) × (free q ≡ []) × (capacity q ≡ capacity p)
  pub push_empty : (g : ℕ) (p : Pool) → free p ≡ [] → 1 ≤ capacity p → free (push g p) ≡ g ∷ []
  pub capacity-push : (g : ℕ) (p : Pool) → capacity (push g p) ≡ capacity p

-- The pools, the builder, the commands of which each graph was built, how often the page heap was
-- reset, and whether the static executor is there.
pub record GraphEngine (Pool : Type 0) : Type 0 where
  pub graphs : List (Bytes × Pool)
  pub builder : List Command
  pub built : List (List Command)
  pub page_heaps : ℕ
  pub executor : Bool

abbrev pub new_engine : {Pool : Type 0} → GraphEngine Pool
new_engine = record { graphs = []; builder = []; built = []; page_heaps = 0; executor = false }

module _ {Pool : Type 0} where
  abbrev pub find_pool : Bytes → List (Bytes × Pool) → Option Pool
  find_pool name [] = none
  find_pool name ((n, p) ∷ rest) =
      let q = find_pool name rest in if same_text n name then some p else q

  abbrev pub set_pool : Bytes → Pool → List (Bytes × Pool) → List (Bytes × Pool)
  set_pool name p [] = (name, p) ∷ []
  set_pool name p ((n, q) ∷ rest) =
      let more = set_pool name p rest in if same_text n name then (n, p) ∷ rest else (n, q) ∷ more

-- `vertex_builder_ptr->named_depend(d).to(d)` and `named_emit(o).to(o)` for each of a vertex.
unfoldable pub depend_commands : List Bytes → List Command
depend_commands [] = []
depend_commands (d ∷ ds) = named_depend d d ∷ depend_commands ds

unfoldable pub emit_commands : List Bytes → List Command
emit_commands [] = []
emit_commands (o ∷ os) = named_emit o o ∷ emit_commands os

unfoldable pub vertex_commands : List VertexMessage → List Command
unfolding depend_commands emit_commands
vertex_commands [] = []
vertex_commands (v ∷ vs) =
    add_vertex v.name ∷ (depend_commands v.depends ++ (emit_commands v.emits ++ vertex_commands vs))

unfoldable pub expression_commands : List Expression → List Command
expression_commands [] = []
expression_commands (e ∷ es) = apply_expression e.exp_name e.exp_val ∷ expression_commands es

-- The commands of one `init_pool` that gets to its end.
abbrev pub config_commands : List VertexMessage → List Expression → List Command
config_commands vs es =
    set_executor
    ∷ (vertex_commands vs ++ (expression_commands es ++ apply_expressions ∷ finish ∷ []))

-- `build` says whether the library builds a graph of what was asked: the answer of `finish` is only
-- logged, and a `build` that fails gives a null pointer.
module _ {Pool : Type 0} (pool : ObjectPool Pool) (build : List Command → Bool) where
  unfoldable pub check_executor : GraphEngine Pool → GraphEngine Pool
  check_executor s = if s.executor then s else record s { executor = true }

  -- It answers 0, and so it has no result here.
  unfoldable pub initialize : GraphEngine Pool → GraphEngine Pool
  unfolding check_executor
  initialize s = check_executor s

  -- `none` is the end of the process; the answer is always true. `cache_size` is only logged.
  unfoldable pub init_pool :
      ConfigFiles → ℕ → ℕ → Bytes → GraphEngine Pool → Option (GraphEngine Pool)
  unfolding vertex_commands expression_commands
  init_pool files size cache_size name s =
      let s = record s { page_heaps = s.page_heaps + 1 } in
      elim (find_pool name s.graphs) [
        | some p ↦ some s
        | none ↦
            let p = pool.reserve_and_clear size pool.new_pool in
            let s = record s { graphs = set_pool name p s.graphs } in
            elim files.vertices [
              | none ↦ none
              | some vs ↦ elim files.expressions [
                | none ↦ none
                | some es ↦ some record s { builder = s.builder ++ config_commands vs es }
              ]
            ]
      ]

  -- `pop` with the creator of a pool: the graph is built from the builder as it is then, and `none`
  -- is the null pointer of a `build` that failed.
  unfoldable pub pop_graph : Pool → GraphEngine Pool → Option ℕ × (Pool × GraphEngine Pool)
  pop_graph p s =
      let (g, q) = pool.pop p in
      elim g [
        | none ↦
            if build s.builder
            then (some (length s.built), (q, record s { built = s.built ++ s.builder ∷ [] }))
            else (none, (q, s))
        | some h ↦ (some h, (q, s))
      ]

  -- The end of the owner that `pop` answered: its graph goes back to the pool, and a null pointer
  -- does not.
  abbrev pub give_back : Option ℕ → Pool → Pool
  give_back none q = q
  give_back (some g) q = pool.push g q

  -- `iter->second->pop().get()`: the pointer outlives the owner that `pop` answers, which ends with
  -- the expression.
  unfoldable pub try_get : Bytes → GraphEngine Pool → Option ℕ × GraphEngine Pool
  unfolding pop_graph
  try_get name s = elim (find_pool name s.graphs) [
    | none ↦ (none, s)
    | some p ↦
        let (g, (q, t)) = pop_graph p s in
        (g, record t { graphs = set_pool name (give_back g q) t.graphs })
  ]
