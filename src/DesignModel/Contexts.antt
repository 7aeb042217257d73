-- ===== src/DesignModel/Contexts.antt =====
-- What a client of the context in example/design_model/strategy/ can see.
use cpp_freshman.Prelude.{
  Option, none, some, List, [], ◌∷◌, ◌++◌, ◌≡◌, refl, ascii, arith, inl, inr, Option-cases,
}
use cpp_freshman.DesignModel.{Lines}
use cpp_freshman.DesignModel.Strategy.{
  MapStrategy, Context, call_who, call_route, context_do_something, set_strategy, ContextCall, sets,
  does, client_code,
}

-- The strategies that are in place when the client calls `context_do_something`, in order.
abbrev pub in_place : List ContextCall → Option MapStrategy → List (Option MapStrategy)
in_place [] s = []
in_place (sets s' ∷ cs) s = in_place cs s'
in_place (does ∷ cs) s = s ∷ in_place cs s

-- What each of them prints; a null pointer among them leaves nothing defined.
abbrev pub printed : List (Option MapStrategy) → Option Lines
printed [] = some []
printed (none ∷ ss) = none
printed (some s ∷ ss) = elim (printed ss) [
  | none ↦ none
  | some more ↦ some ((s.who ++ (s.route ++ ascii "strategy finish" ∷ [])) ++ more)
]

-- A client's calls print, for each call of `context_do_something`, the name, the route and the
-- closing line of the strategy that was set last. Where that is a null pointer the behaviour is
-- undefined: the line for a null strategy is never printed.
pub client_code-printed :
    (cs : List ContextCall) (c : Context) → client_code cs c ≡ printed (in_place cs c.strategy)
unfolding client_code context_do_something call_who call_route set_strategy
client_code-printed [] c = refl
client_code-printed (sets s ∷ cs) c = client_code-printed cs (record c { strategy = s })
client_code-printed (does ∷ cs) c = elim (Option-cases c.strategy) [
  | inl e ↦ ground (arith, e)
  | inr (s, e) ↦ ground (arith, e, client_code-printed cs c)
]
