-- ===== src/Engine/Config.antt =====
-- What the builder of the graph engine is asked for, read back.
use mathlib.Core.List.{append-nil}
use cpp_freshman.Prelude.{ℕ, ◌+◌, Bool, none, some, map, List, [], ◌∷◌, ◌++◌, ◌≡◌, refl, ap, Bytes}
use cpp_freshman.Engine.{
  VertexMessage, Expression, Command, set_executor, add_vertex, named_depend, named_emit,
  apply_expression, apply_expressions, finish, depend_commands, emit_commands, vertex_commands,
  expression_commands, config_commands, ObjectPool, GraphEngine, find_pool, set_pool, init_pool,
}

-- A vertex as it was asked for: each dependency and output with the datum that it goes to.
pub record Wired : Type 0 where
  pub name : Bytes
  pub emits : List (Bytes × Bytes)
  pub depends : List (Bytes × Bytes)

-- The dependencies and outputs in front of the first vertex, the vertices, and the expressions.
pub record ReadBack : Type 0 where
  pub open_depends : List (Bytes × Bytes)
  pub open_emits : List (Bytes × Bytes)
  pub vertices : List Wired
  pub expressions : List Expression

abbrev pub nothing_read : ReadBack
nothing_read = record { open_depends = []; open_emits = []; vertices = []; expressions = [] }

-- A name as a dependency or an output that goes to the datum of that name.
abbrev pub to_itself : Bytes → Bytes × Bytes
to_itself name = (name, name)

-- A vertex of the configuration, with every name to the datum of that name.
abbrev pub wired : VertexMessage → Wired
wired v = record { name = v.name; emits = map to_itself v.emits; depends = map to_itself v.depends }

-- One command, given what is behind it.
abbrev pub read_command : Command → ReadBack → ReadBack
read_command (add_vertex n) r = record {
  open_depends = [];
  open_emits = [];
  vertices = (record { name = n; emits = r.open_emits; depends = r.open_depends }) ∷ r.vertices;
  expressions = r.expressions;
}
read_command (named_depend d to) r = record r { open_depends = (d, to) ∷ r.open_depends }
read_command (named_emit o to) r = record r { open_emits = (o, to) ∷ r.open_emits }
read_command (apply_expression n v) r = record r {
  expressions = (record { exp_name = n; exp_val = v }) ∷ r.expressions;
}
read_command set_executor r = r
read_command apply_expressions r = r
read_command finish r = r

abbrev pub read_from : ReadBack → List Command → ReadBack
read_from r [] = r
read_from r (c ∷ cs) = read_command c (read_from r cs)

abbrev pub read_back : List Command → ReadBack
read_back = read_from nothing_read

pub read_from-append :
    (r : ReadBack) (a b : List Command) → read_from r (a ++ b) ≡ read_from (read_from r b) a
read_from-append r [] b = refl
read_from-append r (c ∷ cs) b = ap (read_command c) (read_from-append r cs b)

pub read_from-depend_commands :
    (r : ReadBack) (ds : List Bytes)
    → read_from r (depend_commands ds)
      ≡ record r { open_depends = map to_itself ds ++ r.open_depends }
unfolding depend_commands
read_from-depend_commands r [] = refl
read_from-depend_commands r (d ∷ ds) =
    ap (read_command (named_depend d d)) (read_from-depend_commands r ds)

pub read_from-emit_commands :
    (r : ReadBack) (os : List Bytes)
    → read_from r (emit_commands os) ≡ record r { open_emits = map to_itself os ++ r.open_emits }
unfolding emit_commands
read_from-emit_commands r [] = refl
read_from-emit_commands r (o ∷ os) =
    ap (read_command (named_emit o o)) (read_from-emit_commands r os)

pub read_from-expression_commands :
    (r : ReadBack) (es : List Expression)
    → read_from r (expression_commands es) ≡ record r { expressions = es ++ r.expressions }
unfolding expression_commands
read_from-expression_commands r [] = refl
read_from-expression_commands r (e ∷ es) =
    ap (read_command (apply_expression e.exp_name e.exp_val)) (read_from-expression_commands r es)

-- Commands behind which nothing is open.
abbrev pub IsClosed : ReadBack → Type 0
IsClosed r = (r.open_depends ≡ []) × (r.open_emits ≡ [])

abbrev pub with_vertices : List VertexMessage → ReadBack → ReadBack
with_vertices vs r = record r { vertices = map wired vs ++ r.vertices }

pub read_from-vertex_commands :
    (r : ReadBack) (vs : List VertexMessage)
    → IsClosed r
    → read_from r (vertex_commands vs) ≡ with_vertices vs r
unfolding vertex_commands
read_from-vertex_commands r [] c = refl
read_from-vertex_commands r (v ∷ vs) c =
    rw
      (
        read_from-append r (depend_commands v.depends)
            (emit_commands v.emits ++ vertex_commands vs),
        read_from-append r (emit_commands v.emits) (vertex_commands vs),
        read_from-vertex_commands r vs c,
        read_from-emit_commands (with_vertices vs r) v.emits,
        read_from-depend_commands
            (record (with_vertices vs r) { open_emits = map to_itself v.emits ++ r.open_emits })
            v.depends,
        c.0,
        c.1,
        append-nil (map to_itself v.emits),
        append-nil (map to_itself v.depends),
      )
      refl

pub read_back-config_commands :
    (vs : List VertexMessage) (es : List Expression)
    → read_back (config_commands vs es)
      ≡ record { open_depends = []; open_emits = []; vertices = map wired vs; expressions = es }
read_back-config_commands vs es =
    let rest = expression_commands es ++ apply_expressions ∷ finish ∷ [] in
    let e : read_back rest ≡ record nothing_read { expressions = es } =
      rw
        (
          read_from-append nothing_read (expression_commands es) (apply_expressions ∷ finish ∷ []),
          read_from-expression_commands nothing_read es,
          append-nil es,
        )
        refl in
    rw
      (
        read_from-append nothing_read (vertex_commands vs) rest,
        e,
        read_from-vertex_commands (record nothing_read { expressions = es }) vs (refl, refl),
        append-nil (map wired vs),
      )
      refl

-- Reading commands in front of others that are closed keeps those.
pub read_from-kept :
    (r : ReadBack) (cs : List Command)
    → IsClosed r
    → ((read_from r cs).vertices ≡ (read_back cs).vertices ++ r.vertices)
      × ((read_from r cs).expressions ≡ (read_back cs).expressions ++ r.expressions)
      × ((read_from r cs).open_depends ≡ (read_back cs).open_depends)
      × ((read_from r cs).open_emits ≡ (read_back cs).open_emits)
read_from-kept r [] c = (refl, refl, c.0, c.1)
read_from-kept r (add_vertex n ∷ cs) c =
    let (a, b, d, e) = read_from-kept r cs c in (rw (a, d, e) refl, b, refl, refl)
read_from-kept r (named_depend d0 to ∷ cs) c =
    let (a, b, d, e) = read_from-kept r cs c in (a, b, ap (◌∷◌ (d0, to)) d, e)
read_from-kept r (named_emit o to ∷ cs) c =
    let (a, b, d, e) = read_from-kept r cs c in (a, b, d, ap (◌∷◌ (o, to)) e)
read_from-kept r (apply_expression n v ∷ cs) c =
    let (a, b, d, e) = read_from-kept r cs c in
    (a, ap (◌∷◌ (record { exp_name = n; exp_val = v })) b, d, e)
read_from-kept r (set_executor ∷ cs) c = read_from-kept r cs c
read_from-kept r (apply_expressions ∷ cs) c = read_from-kept r cs c
read_from-kept r (finish ∷ cs) c = read_from-kept r cs c

-- The engine after an `init_pool` that makes a pool.
abbrev pub with_pool :
    {Pool : Type 0}
    → ObjectPool Pool
    → List Command
    → ℕ
    → Bytes
    → GraphEngine Pool
    → GraphEngine Pool
with_pool pool cs size name s = record s {
  graphs = set_pool name (pool.reserve_and_clear size pool.new_pool) s.graphs;
  builder = s.builder ++ cs;
  page_heaps = s.page_heaps + 1;
}

-- For a name without a pool, `init_pool` appends to the builder just the vertices of the
-- configuration, with their dependencies and outputs, each of them to the datum of its own name,
-- and its expressions, in order, behind what was asked for before.
pub init_pool-read_back :
    {Pool : Type 0} (pool : ObjectPool Pool) (build : List Command → Bool) (vs : List VertexMessage)
    (es : List Expression) (size cache_size : ℕ) (name : Bytes) (s : GraphEngine Pool)
    → find_pool name s.graphs ≡ none
    → (t : GraphEngine Pool) × (init_pool pool build
          (record { vertices = some vs; expressions = some es })
          size
          cache_size
          name
          s
        ≡ some t)
      × ((read_back t.builder).vertices ≡ (read_back s.builder).vertices ++ map wired vs)
      × ((read_back t.builder).expressions ≡ (read_back s.builder).expressions ++ es)
unfolding init_pool
init_pool-read_back pool build vs es size cache_size name s new =
    let r = read_back (config_commands vs es) in
    let e = read_back-config_commands vs es in
    let whole = read_from-append nothing_read s.builder (config_commands vs es) in
    let kept =
      read_from-kept
        (record { open_depends = []; open_emits = []; vertices = map wired vs; expressions = es })
        s.builder (refl, refl) in
    (
      with_pool pool (config_commands vs es) size name s,
      rw (init_pool, new) refl,
      rw (whole, e) kept.0,
      rw (whole, e) kept.1,
    )
