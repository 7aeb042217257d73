-- ===== src/Engine/Service.antt =====
-- The start of the service: `GlobalInitializer::init` of example/brpc/common/global.h, and `main` of
-- example/brpc/brpc_server.cpp.
use cpp_freshman.Prelude.{Bool, true, false, Option, none, some, List, [], ◌∷◌, Bytes, ascii}
use cpp_freshman.Engine.{
  ConfigFiles, Command, ObjectPool, GraphEngine, init_pool, try_get, initialize,
}
use cpp_freshman.DictManager.{DictHander, get_dict, Code, success, failure}

abbrev pub main_graph : Bytes
main_graph = ascii "main_graph"

-- `GET_DICT` for each of the two handles; a null handle is followed.
unfoldable pub get_dicts : {B : Type 0} → List (Option (DictHander B)) → Option (List (Option B))
unfolding get_dict
get_dicts [] = some []
get_dicts (none ∷ hs) = none
get_dicts (some h ∷ hs) = elim (get_dicts hs) [ none ↦ none | some ds ↦ some (get_dict h ∷ ds) ]

module _ {Pool : Type 0} (pool : ObjectPool Pool) (build : List Command → Bool) where
  -- The engine's part of `init`; `none` for the engine is a component that the context has not.
  unfoldable pub start_engine :
      ConfigFiles → Option (GraphEngine Pool) → Option (Option (GraphEngine Pool))
  unfolding initialize init_pool try_get
  start_engine files none = some none
  start_engine files (some s) =
      elim (init_pool pool build files 20 20 main_graph (initialize pool build s)) [
        | none ↦ none
        | some t ↦ some (some (try_get pool build main_graph t).1)
      ]

  -- `init`, given what `run(true)` made of the handles. The values of the dictionaries are logged.
  unfoldable pub global_init :
      {B : Type 0}
      → Option (List (Option (DictHander B)) × Code)
      → ConfigFiles
      → Option (GraphEngine Pool)
      → Option (Option (GraphEngine Pool) × Code)
  unfolding get_dicts start_engine
  global_init none files engine = none
  global_init (some (hs, failure)) files engine = some (engine, failure)
  global_init (some (hs, success)) files engine = elim (get_dicts hs) [
    | none ↦ none
    | some ds ↦ elim (start_engine files engine) [ none ↦ none | some e ↦ some (e, success) ]
  ]

-- How the process ends: `exit(1)`, a return of -1 at one of the two steps, or `_exit(0)` after it
-- was asked to quit.
pub data Ending : Type 0 where
  exits_1 : Ending
  fails_to_add : Ending
  fails_to_start : Ending
  served : Ending

unfoldable pub server_main : Code → Bool → Bool → Ending
server_main failure added started = exits_1
server_main success false started = fails_to_add
server_main success true false = fails_to_start
server_main success true true = served
