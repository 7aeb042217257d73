-- ===== src/DictManager/Registered.antt =====
-- example/brpc/common/dicts.cpp with `DEFINE_DICT_REGISTER_BASE` of dict_manager.h: the two
-- dictionaries that the constructor functions of the process register before `main`.
use cpp_freshman.Prelude.{
  ◌⊎◌, inl, inr, ℕ, Bool, Option, none, some, List, [], ◌∷◌, ◌≡◌, refl, arith, Bytes, ascii, Eq,
  if◌then◌else◌,
}
use cpp_freshman.Split.{Cast}
use cpp_freshman.FileDict.{File, Lexical}
use cpp_freshman.DictManager.{
  run, DictBase, DictHander, success, failure, get_dict, set_slot, register_dict, Start, start_one,
  start_all, join_all, parallel_sync_load,
}
use cpp_freshman.DictManager.Startup.{Code-cases, start_one_undefined}
use cpp_freshman.DictManager.Files.{FileDict, common_base, offer_base}

-- An object of one of the two classes.
pub data Registered (K V : Type 0) : Type 0 where
  offer_dict common_dict : FileDict K V → Registered K V

-- `std::make_shared<DictHander>()`.
abbrev pub new_hander : {D : Type 0} → DictHander D
new_hander = record {
  dict_name = [];
  dict_file_path = [];
  dict_0 = none;
  dict_1 = none;
  cur_index = 0;
  cfunc = none;
  modify_time = 0;
  load_finish_time = 0;
}

abbrev pub offer_path : Bytes
offer_path = ascii "./conf/dicts/offer_bid_ratio.txt"

-- `__create_func<T>` for a path: an object that knows its file.
abbrev pub create_func : {K V : Type 0} → Bytes → FileDict K V
create_func path = record { dict_file = path; key_values = [] }

-- The results of a virtual function of one class, as those of an object of either.
abbrev pub as_init : {A B : Type 0} → (A → B) → A × Bool → B × Bool
as_init f (d, ok) = (f d, ok)

abbrev pub as_load : {A B : Type 0} → (A → B) → Option (A × Bool) → Option (B × Bool)
as_load f none = none
as_load f (some (d, ok)) = some (f d, ok)

module _ {K V : Type 0} where
  -- `register_dict_offer_bid_ratio` and `register_dict_common_dict_info_offer`.
  abbrev pub register_offer_bid_ratio :
      List (Option (DictHander (Registered K V))) → List (Option (DictHander (Registered K V)))
  register_offer_bid_ratio =
      register_dict (ascii "offer_bid_ratio") offer_path
        (some (offer_dict (create_func offer_path))) (some new_hander)

  abbrev pub register_common_dict_info_offer :
      List (Option (DictHander (Registered K V))) → List (Option (DictHander (Registered K V)))
  register_common_dict_info_offer =
      register_dict (ascii "common_dict_info_offer") offer_path
        (some (common_dict (create_func offer_path))) (some new_hander)

  -- The handles of the manager when `main` begins.
  abbrev pub registered : List (Option (DictHander (Registered K V)))
  registered = register_common_dict_info_offer (register_offer_bid_ratio [])

module _ {K V : Type 0} ⦃e : Eq K⦄ (fs : Bytes → File) (lex : Lexical K V)
    (to_double : Bytes → Cast V) (to_int64 : V → K) where
  -- The virtual functions, which go to the class of the object.
  abbrev pub registered_init : Registered K V → Registered K V × Bool
  registered_init (offer_dict d) = as_init offer_dict ((offer_base fs to_double to_int64).init d)
  registered_init (common_dict d) = as_init common_dict ((common_base fs lex).init d)

  abbrev pub registered_load : Registered K V → Option (Registered K V × Bool)
  registered_load (offer_dict d) = as_load offer_dict ((offer_base fs to_double to_int64).load d)
  registered_load (common_dict d) = as_load common_dict ((common_base fs lex).load d)

  abbrev pub registered_file : Registered K V → Bytes
  registered_file (offer_dict d) = (offer_base fs to_double to_int64).get_cur_file d
  registered_file (common_dict d) = (common_base fs lex).get_cur_file d

  abbrev pub registered_base : DictBase (Registered K V)
  registered_base = record {
    init = registered_init;
    load = registered_load;
    get_cur_file = registered_file;
  }

-- A handle as `register_dict` leaves it.
abbrev handle_of : {D : Type 0} → Bytes → Bytes → D → DictHander D
handle_of name path made = record new_hander {
  dict_name = name;
  dict_file_path = path;
  cfunc = some made;
}

module _ {K V : Type 0} ⦃e : Eq K⦄ (fs : Bytes → File) (lex : Lexical K V)
    (to_double : Bytes → Cast V) (to_int64 : V → K) (mtime : Bytes → ℕ) where
  -- An object of each class before its load.
  abbrev pub offer_made : Registered K V
  offer_made = offer_dict (create_func offer_path)

  abbrev pub common_made : Registered K V
  common_made = common_dict (create_func offer_path)

  -- In the process with its two registered dictionaries, `run` is undefined as soon as the thread of
  -- one of them starts; if neither does, it answers what the start of the thread of `check` gives, and `GET_DICT` hands out both dictionaries without an entry.
  pub run-registered :
      (starts : ℕ → Start) (thread_ok : Bool)
      → ((((starts 0).started ≡ success) ⊎ ((starts 1).started ≡ success))
          × (run (registered_base fs lex to_double to_int64) mtime starts thread_ok registered
              ≡ none))
        ⊎ (((starts 0).started ≡ failure)
            × ((starts 1).started ≡ failure)
            × ((h : DictHander (Registered K V)) × (h' : DictHander (Registered K V)) × (run
                    (registered_base fs lex to_double to_int64)
                    mtime
                    starts
                    thread_ok
                    registered
                  ≡ some (some h ∷ some h' ∷ [], (if thread_ok then success else failure)))
                × (get_dict h ≡ some offer_made)
                × (get_dict h' ≡ some common_made)))
  unfolding run parallel_sync_load join_all get_dict register_dict offer_base common_base start_all
      start_one
  run-registered starts thread_ok = elim (Code-cases (starts 0).started) [
    | inl e ↦
        let first =
          start_one_undefined (registered_base fs lex to_double to_int64) mtime (starts 0)
            (handle_of (ascii "offer_bid_ratio") offer_path offer_made) offer_made e
            ((λ q. cc), refl) in
        inl (inl e, ground (arith, first))
    | inr e ↦ elim (Code-cases (starts 1).started) [
      | inl f ↦
          let second =
            start_one_undefined (registered_base fs lex to_double to_int64) mtime (starts 1)
              (handle_of (ascii "common_dict_info_offer") offer_path common_made) common_made f
              ((λ q. cc), refl) in
          inl (inr f, ground (arith, e, second))
      | inr f ↦ inr (
        e,
        f,
        (
          set_slot (handle_of (ascii "offer_bid_ratio") offer_path offer_made) 0 (some offer_made),
          set_slot (handle_of (ascii "common_dict_info_offer") offer_path common_made) 0
              (some common_made),
          ground (arith, e, f),
          refl,
          refl,
        ),
      )
    ]
  ]
