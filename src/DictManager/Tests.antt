-- ===== src/DictManager/Tests.antt =====
-- Concrete handles, with numbers or files for dictionaries.
use cpp_freshman.Prelude.{
  if◌then◌else◌, ℕ, true, false, Option, none, some, List, [], ◌∷◌, ◌≡◌, refl, Bool, ◌==◌, ◌⊎◌,
  arith, Bytes, nat_eq,
}
use cpp_freshman.Split.Tests.{digit}
use cpp_freshman.FileDict.{File}
use cpp_freshman.FileDict.Store.{dump}
use cpp_freshman.FileDict.Tests.{digits, three_rows, file_of}
use cpp_freshman.DictManager.{
  run, Code, DictBase, DictHander, Env, Start, success, failure, get_dict, check_one, check_rounds,
  parallel_sync_load, reload, install, try_new, start_all, start_one, load_dict_by_thread, join_all,
}
use cpp_freshman.DictManager.Readers.{load_index, copy_dict, copy_dict-check_one}
use cpp_freshman.DictManager.Check.{IsValid, Kept, Published, check_one-publishes}
use cpp_freshman.DictManager.Startup.{SomeStarted, NoneStarted, parallel_sync_load-outcome}
use cpp_freshman.DictManager.Registered.{
  Registered, offer_dict, common_dict, create_func, offer_path, registered, registered_base,
  run-registered,
}
use cpp_freshman.DictManager.Files.{FileDict, common_base, offer_base, file_dicts_never_reload}

-- Numbers: `init` answers `answer`, and `load` accepts 7 alone.
abbrev numbers : Bool → DictBase ℕ
numbers answer = record {
  init = λ d. (d, answer);
  load = λ d. some (d, d == 7);
  get_cur_file = λ d. b'f' ∷ [];
}

abbrev handle : ℕ → DictHander ℕ
handle made = record {
  dict_name = b'n' ∷ [];
  dict_file_path = b'f' ∷ [];
  dict_0 = some 5;
  dict_1 = none;
  cur_index = 0;
  cfunc = some made;
  modify_time = 10;
  load_finish_time = 0;
}

abbrev at_400 : Env
at_400 = record { now = 400; loaded_at = 401; mtime = λ f. 20 }

-- The handle after a round that publishes 7.
abbrev swapped : DictHander ℕ
swapped = record (handle 7) {
  dict_1 = some 7;
  cur_index = 1;
  modify_time = 20;
  load_finish_time = 401;
}

check_swaps : check_one (numbers false) at_400 (handle 7) ≡ some swapped
unfolding check_one reload install try_new
check_swaps = refl

check_one-publishes_example :
    IsValid swapped
    × (Kept (handle 7) swapped ⊎ Published (numbers false) at_400 (handle 7) swapped)
check_one-publishes_example =
    check_one-publishes (numbers false) at_400 (handle 7) (omega arith) check_swaps

-- The thread of the second handle cannot be started.
abbrev starts_first : ℕ → Start
starts_first i = record { started = (if i == 0 then success else failure); thread_first = false }

abbrev starts_none : ℕ → Start
starts_none i = record { started = failure; thread_first = false }

-- Without a thread the object of the handle stays as `init` left it.
not_loaded :
    parallel_sync_load (numbers true) (λ f. 20) starts_none (some (handle 7) ∷ none ∷ [])
    ≡ some (some (record (handle 7) { dict_0 = some 7 }) ∷ none ∷ [], failure)
unfolding parallel_sync_load start_all start_one join_all
not_loaded = refl

one_thread_runs :
    parallel_sync_load
      (numbers true)
      (λ f. 20)
      starts_first
      (some (handle 7) ∷ some (handle 8) ∷ [])
    ≡ none
unfolding parallel_sync_load start_all start_one load_dict_by_thread
one_thread_runs = refl

-- Every path leads to one file.
abbrev one_file : Bytes → File
one_file path = file_of (dump three_rows)

abbrev fresh_file : FileDict ℕ ℕ
fresh_file = record { dict_file = b'f' ∷ []; key_values = [] }

abbrev file_handle : Option (FileDict ℕ ℕ) → DictHander (FileDict ℕ ℕ)
file_handle published = record {
  dict_name = b'n' ∷ [];
  dict_file_path = b'f' ∷ [];
  dict_0 = published;
  dict_1 = none;
  cur_index = 0;
  cfunc = some fresh_file;
  modify_time = 10;
  load_finish_time = 0;
}

file_dicts_never_reload_example :
    ((h' : DictHander (FileDict ℕ ℕ)) × (check_rounds
          (common_base one_file digits)
          (at_400 ∷ [])
          (file_handle (some fresh_file))
        ≡ some h')
      × (get_dict h' ≡ get_dict (file_handle (some fresh_file))))
    × ((h' : DictHander (FileDict ℕ ℕ)) × (check_rounds
            (offer_base one_file digit (λ d. d))
            (at_400 ∷ [])
            (file_handle (some fresh_file))
          ≡ some h')
        × (get_dict h' ≡ get_dict (file_handle (some fresh_file))))
file_dicts_never_reload_example =
    file_dicts_never_reload one_file digits digit (λ d. d) (at_400 ∷ [])
      (file_handle (some fresh_file)) fresh_file (omega arith) refl

copy_dict-check_one_example :
    (copy_dict (load_index (handle 7)) swapped ≡ get_dict (handle 7))
    × ((copy_dict (load_index swapped) swapped ≡ get_dict (handle 7))
        ⊎ Published (numbers false) at_400 (handle 7) swapped)
copy_dict-check_one_example =
    copy_dict-check_one (numbers false) at_400 (handle 7) swapped (omega arith) check_swaps

abbrev at_4000 : Env
at_4000 = record { now = 4000; loaded_at = 4001; mtime = λ f. 20 }

-- After a second round, a reader with the index from before the first finds a null pointer.
two_rounds_between :
    (check_rounds (numbers false) (at_400 ∷ at_4000 ∷ []) (handle 7)
      ≡ some (record swapped { dict_0 = none }))
    × (copy_dict (load_index (handle 7)) (record swapped { dict_0 = none }) ≡ none)
unfolding check_rounds check_one reload install try_new
two_rounds_between = (refl, refl)

parallel_sync_load-outcome_example :
    (SomeStarted (numbers true) starts_first 0 (some (handle 7) ∷ some (handle 8) ∷ [])
      × (parallel_sync_load
            (numbers true)
            (λ f. 20)
            starts_first
            (some (handle 7) ∷ some (handle 8) ∷ [])
          ≡ none))
    ⊎ ((hs' : List (Option (DictHander ℕ))) × (r : Code) × (parallel_sync_load
            (numbers true)
            (λ f. 20)
            starts_first
            (some (handle 7) ∷ some (handle 8) ∷ [])
          ≡ some (hs', r))
        × NoneStarted (numbers true) starts_first 0 (some (handle 7) ∷ some (handle 8) ∷ []) hs' r)
parallel_sync_load-outcome_example =
    parallel_sync_load-outcome (numbers true) (λ f. 20) starts_first
      (some (handle 7) ∷ some (handle 8) ∷ [])

-- The two registered dictionaries where no thread starts.
run-registered_example :
    ((((starts_none 0).started ≡ success) ⊎ ((starts_none 1).started ≡ success))
      × (run (registered_base one_file digits digit (λ d. d)) (λ f. 20) starts_none true registered
          ≡ none))
    ⊎ (((starts_none 0).started ≡ failure)
        × ((starts_none 1).started ≡ failure)
        × ((h : DictHander (Registered ℕ ℕ)) × (h' : DictHander (Registered ℕ ℕ)) × (run
                (registered_base one_file digits digit (λ d. d))
                (λ f. 20)
                starts_none
                true
                registered
              ≡ some (some h ∷ some h' ∷ [], success))
            × (get_dict h ≡ some (offer_dict (create_func offer_path)))
            × (get_dict h' ≡ some (common_dict (create_func offer_path)))))
run-registered_example = run-registered one_file digits digit (λ d. d) (λ f. 20) starts_none true
