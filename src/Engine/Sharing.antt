-- ===== src/Engine/Sharing.antt =====
-- The pointers that `try_get` answers.
use Prim.Native.Nat.{zero, suc}
use cpp_freshman.Prelude.{
  ℕ, ◌≤◌, Bool, true, Option, none, some, List, [], ◌∷◌, ◌++◌, ◌≡◌, refl, ap, ◌∙◌, Bytes, same_text,
  same_text_iff, Bool-cases, inl, inr, length,
}
use cpp_freshman.Engine.{
  Command, VertexMessage, Expression, config_commands, ObjectPool, GraphEngine, find_pool, set_pool,
  init_pool, pop_graph, try_get,
}
use cpp_freshman.Engine.Config.{with_pool}

module _ {Pool : Type 0} where
  pub find_pool-set_pool :
      (name : Bytes) (p : Pool) (ps : List (Bytes × Pool))
      → find_pool name (set_pool name p ps) ≡ some p
  find_pool-set_pool name p [] = let e = (same_text_iff name name).1 refl in rw e refl
  find_pool-set_pool name p ((n, q) ∷ rest) = elim (Bool-cases (same_text n name)) [
    | inl e ↦ rw (e, e) refl
    | inr e ↦ rw (e, e) (find_pool-set_pool name p rest)
  ]

module _ {Pool : Type 0} (pool : ObjectPool Pool) (build : List Command → Bool) where
  -- Calls of `try_get`, one after the other, with what they answer.
  abbrev pub get_times : ℕ → Bytes → GraphEngine Pool → List (Option ℕ) × GraphEngine Pool
  get_times zero name s = ([], s)
  get_times (suc n) name s =
      let (g, t) = try_get pool build name s in let (gs, u) = get_times n name t in (g ∷ gs, u)

  -- The engine has a pool of the name with room for a graph, and it holds these graphs.
  abbrev pub HasPool : Bytes → List ℕ → GraphEngine Pool → Type 0
  HasPool name gs s =
      (p : Pool) × (find_pool name s.graphs ≡ some p) × (pool.free p ≡ gs) × (1 ≤ pool.capacity p)

  pub try_get_empty :
      (name : Bytes) (s : GraphEngine Pool)
      → HasPool name [] s
      → build s.builder ≡ true
      → ((try_get pool build name s).0 ≡ some (length s.built))
        × HasPool name (length s.built ∷ []) (try_get pool build name s).1
        × ((try_get pool build name s).1.built ≡ s.built ++ s.builder ∷ [])
  unfolding try_get pop_graph
  try_get_empty name s (p, found, none_free, room) builds =
      let e = pool.pop_empty p none_free in
      rw (try_get, found, pop_graph, ap (λ x. x.0) e, ap (λ x. x.1) e, builds)
        (
          refl,
          (
            pool.push (length s.built) p,
            find_pool-set_pool name (pool.push (length s.built) p) s.graphs,
            pool.push_empty (length s.built) p none_free room,
            rw (pool.capacity-push (length s.built) p) room,
          ),
          refl,
        )

  pub try_get_one :
      (name : Bytes) (g : ℕ) (s : GraphEngine Pool)
      → HasPool name (g ∷ []) s
      → ((try_get pool build name s).0 ≡ some g)
        × HasPool name (g ∷ []) (try_get pool build name s).1
        × ((try_get pool build name s).1.built ≡ s.built)
  unfolding try_get pop_graph
  try_get_one name g s (p, found, one_free, room) =
      let (q, e, empty, same) = pool.pop_one g p one_free in
      rw (try_get, found, pop_graph, ap (λ x. x.0) e, ap (λ x. x.1) e)
        (
          refl,
          (
            pool.push g q,
            find_pool-set_pool name (pool.push g q) s.graphs,
            pool.push_empty g q empty (rw same room),
            rw (pool.capacity-push g q, same) room,
          ),
          refl,
        )

  -- The same answer, a number of times.
  abbrev pub repeat : ℕ → ℕ → List (Option ℕ)
  repeat zero g = []
  repeat (suc n) g = some g ∷ repeat n g

  pub get_times-repeat :
      (n : ℕ) (name : Bytes) (g : ℕ) (s : GraphEngine Pool)
      → HasPool name (g ∷ []) s
      → ((get_times n name s).0 ≡ repeat n g) × ((get_times n name s).1.built ≡ s.built)
  get_times-repeat zero name g s has = (refl, refl)
  get_times-repeat (suc n) name g s has =
      let (e, next, b) = try_get_one name g s has in
      let (es, bs) = get_times-repeat n name g (try_get pool build name s).1 next in
      (rw (e, es) refl, bs ∙ b)

  -- After `init_pool` for a name that had no pool, with a size of at least one, any number of calls
  -- of `try_get` for that name, each of which has ended before the next begins, answer the same
  -- graph, which was built once by the first, provided that the library builds a graph of what the
  -- builder holds after `init_pool`.
  pub init_pool-get_times :
      (vs : List VertexMessage) (es : List Expression) (size cache_size n : ℕ) (name : Bytes)
      (s : GraphEngine Pool)
      → find_pool name s.graphs ≡ none
      → 1 ≤ size
      → build (s.builder ++ config_commands vs es) ≡ true
      → (t : GraphEngine Pool) × (init_pool pool build
            (record { vertices = some vs; expressions = some es })
            size
            cache_size
            name
            s
          ≡ some t)
        × ((get_times (suc n) name t).0 ≡ repeat (suc n) (length s.built))
        × ((get_times (suc n) name t).1.built ≡ s.built ++ t.builder ∷ [])
  unfolding init_pool
  init_pool-get_times vs es size cache_size n name s new room builds =
      let p = pool.reserve_and_clear size pool.new_pool in
      let t = with_pool pool (config_commands vs es) size name s in
      let (e, next, b) =
        try_get_empty name t
          (
            p,
            find_pool-set_pool name p s.graphs,
            pool.free-reserve_and_clear size pool.new_pool,
            rw (pool.capacity-reserve_and_clear size pool.new_pool) room,
          )
          builds in
      let (es, bs) = get_times-repeat n name (length s.built) (try_get pool build name t).1 next in
      (t, rw (init_pool, new) refl, rw (e, es) refl, bs ∙ b)
