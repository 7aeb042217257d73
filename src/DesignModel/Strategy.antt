-- ===== src/DesignModel/Strategy.antt =====
-- example/design_model/strategy/ and strategy_main.cpp: a context with a strategy that can be
-- replaced.
use cpp_freshman.Prelude.{Option, none, some, List, [], ◌∷◌, ◌++◌, ascii}
use cpp_freshman.DesignModel.{Lines}

pub record MapStrategy : Type 0 where
  pub route : Lines
  pub who : Lines

unfoldable pub car_map_strategy : MapStrategy
car_map_strategy = record {
  route = ascii "i am audi,and i fast" ∷ [];
  who = ascii "i am audi" ∷ [];
}

unfoldable pub bike_map_strategy : MapStrategy
bike_map_strategy = record {
  route = ascii "i am bike, and it is free" ∷ [];
  who = ascii "i am bike" ∷ [];
}

unfoldable pub bus_map_strategy : MapStrategy
bus_map_strategy = record {
  route = ascii "i am bus, and it is big" ∷ [];
  who = ascii "i am bus" ∷ [];
}

-- `Context`: the owned strategy, `none` for a null pointer.
pub record Context : Type 0 where
  pub strategy : Option MapStrategy

abbrev pub null_line : Lines
null_line = ascii "strategy == nullptr" ∷ []

-- `strategy->who()`; `none` is a call on a null pointer, which is undefined.
unfoldable pub call_who : Context → Option Lines
call_who c = elim c.strategy [ none ↦ none | some s ↦ some s.who ]

-- The test that follows, and its branches.
unfoldable pub call_route : Context → Lines
call_route c = elim c.strategy [
  | none ↦ null_line
  | some s ↦ s.route ++ ascii "strategy finish" ∷ []
]

unfoldable pub context_do_something : Context → Option Lines
unfolding call_who call_route
context_do_something c = elim (call_who c) [
  | none ↦ none
  | some lines ↦ some (lines ++ call_route c)
]

unfoldable pub set_strategy : Context → Option MapStrategy → Context
set_strategy c s = record c { strategy = s }

-- The calls of a client.
pub data ContextCall : Type 0 where
  sets : Option MapStrategy → ContextCall
  does : ContextCall

unfoldable pub client_code : List ContextCall → Context → Option Lines
unfolding context_do_something set_strategy
client_code [] c = some []
client_code (sets s ∷ cs) c = client_code cs (set_strategy c s)
client_code (does ∷ cs) c = elim (context_do_something c) [
  | none ↦ none
  | some lines ↦ elim (client_code cs c) [ none ↦ none | some more ↦ some (lines ++ more) ]
]

abbrev pub main_calls : List ContextCall
main_calls = does ∷ sets (some bus_map_strategy) ∷ does ∷ sets (some bike_map_strategy) ∷ does ∷ []
