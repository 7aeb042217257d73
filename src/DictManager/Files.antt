-- ===== src/DictManager/Files.antt =====
-- The dictionary classes behind `DictBase`: `CommonFileDict` and `OfferBidRatio`, with `init` and
-- `get_cur_file` from file_dict.h and their own files, over a file system that is a parameter.
use cpp_freshman.Prelude.{true, Bool, Option, none, some, List, ◌≡◌, refl, Bytes, Eq}
use cpp_freshman.Split.{Cast}
use cpp_freshman.FileDict.{
  File, Loaded, finished, raised, unfinished, Lexical, common_load, offer_load,
}
use cpp_freshman.DictManager.{DictBase, DictHander, Env, get_dict, check_rounds}
use cpp_freshman.DictManager.Check.{IsValid}
use cpp_freshman.DictManager.Reload.{InitReturnsTrue, check_rounds_never_reload}

-- `_dict_file` and the map.
pub record FileDict (K V : Type 0) : Type 0 where
  pub dict_file : Bytes
  pub key_values : List (K × V)

-- The result of a `load` as the manager sees it.
unfoldable pub loaded_dict :
    {K V : Type 0} → FileDict K V → Loaded (List (K × V)) → Option (FileDict K V × Bool)
loaded_dict d (finished ok m) = some (record d { key_values = m }, ok)
loaded_dict d (raised m) = none
loaded_dict d unfinished = none

module _ {K V : Type 0} ⦃e : Eq K⦄ (fs : Bytes → File) where
  unfoldable pub common_base : Lexical K V → DictBase (FileDict K V)
  unfolding loaded_dict
  common_base lex = record {
    init = λ d. (d, true);
    load = λ d. loaded_dict d (common_load lex (fs d.dict_file) d.key_values);
    get_cur_file = λ d. d.dict_file;
  }

  unfoldable pub offer_base : (Bytes → Cast V) → (V → K) → DictBase (FileDict K V)
  unfolding loaded_dict
  offer_base to_double to_int64 = record {
    init = λ d. (d, true);
    load = λ d. loaded_dict d (offer_load to_double to_int64 (fs d.dict_file) d.key_values);
    get_cur_file = λ d. d.dict_file;
  }

  common_base-InitReturnsTrue : (lex : Lexical K V) → InitReturnsTrue (common_base lex)
  unfolding common_base
  common_base-InitReturnsTrue lex d = refl

  offer_base-InitReturnsTrue :
      (to_double : Bytes → Cast V) (to_int64 : V → K)
      → InitReturnsTrue (offer_base to_double to_int64)
  unfolding offer_base
  offer_base-InitReturnsTrue to_double to_int64 d = refl

  -- A handle of either class never gets a changed file: however often `check` comes round, the
  -- dictionary that `GET_DICT` hands out stays the one of the start.
  pub file_dicts_never_reload :
      (lex : Lexical K V) (to_double : Bytes → Cast V) (to_int64 : V → K) (envs : List Env)
      (h : DictHander (FileDict K V)) (made : FileDict K V)
      → IsValid h
      → h.cfunc ≡ some made
      → ((h' : DictHander (FileDict K V)) × (check_rounds (common_base lex) envs h ≡ some h')
          × (get_dict h' ≡ get_dict h))
        × ((h' : DictHander (FileDict K V)) × (check_rounds (offer_base to_double to_int64) envs h
              ≡ some h')
            × (get_dict h' ≡ get_dict h))
  file_dicts_never_reload lex to_double to_int64 envs h made v c =
      let (h', e', d', _, _) =
        check_rounds_never_reload (common_base lex) envs h made v (common_base-InitReturnsTrue lex)
          c in
      let (h'', e'', d'', _, _) =
        check_rounds_never_reload (offer_base to_double to_int64) envs h made v
          (offer_base-InitReturnsTrue to_double to_int64) c in
      ((h', e', d'), (h'', e'', d''))
