-- ===== src/DictManager.antt =====
-- example/brpc/plugins/dict/dict_manager.{h,cpp} and dict_base.h: the registry of dictionaries, each
-- in two slots of which `cur_index` names the published one, the parallel load at the start, and
-- the rounds of the thread that looks for changed files.
pub mod Check
pub mod Reload
pub mod Startup
pub mod Files
pub mod Readers
pub mod Registered
pub mod Initialize
pub mod ConfigTests
pub mod Tests
use cpp_freshman.Prelude.{
  ℕ, zero, suc, ◌+◌, ◌-◌, Bool, true, false, not, ◌&&◌, Option, none, some, List, [], ◌∷◌, ◌++◌,
  ltb, ◌==◌, if◌then◌else◌, length, Bytes,
}
use mathlib.Core.Option

-- The virtual functions of `DictBase`. `none` from `load` is an exception that leaves it; nothing
-- on the threads that call it catches one, so the process ends.
pub record DictBase (D : Type 0) : Type 0 where
  pub init : D → D × Bool
  pub load : D → Option (D × Bool)
  pub get_cur_file : D → Bytes

-- `DictManager::DictHander`. `cfunc` is what the bound constructor makes, `none` a null pointer.
pub record DictHander (D : Type 0) : Type 0 where
  pub dict_name : Bytes
  pub dict_file_path : Bytes
  pub dict_0 : Option D
  pub dict_1 : Option D
  pub cur_index : ℕ
  pub cfunc : Option D
  pub modify_time : ℕ
  pub load_finish_time : ℕ

-- An `int` of which only `== 0` is asked.
pub data Code : Type 0 where
  success failure : Code

abbrev pub is_null {ℓ} : {A : Type ℓ} → Option A → Bool
is_null none = true
is_null (some _) = false

module _ {D : Type 0} where
  -- `dicts[i]` and `dicts[i] = d`; an index from 2 on is out of bounds, and nothing relies on it.
  abbrev pub slot : DictHander D → ℕ → Option D
  slot h i = if i == 0 then h.dict_0 else h.dict_1

  abbrev pub set_slot : DictHander D → ℕ → Option D → DictHander D
  set_slot h i d = record h {
    dict_0 = (if i == 0 then d else h.dict_0);
    dict_1 = (if i == 0 then h.dict_1 else d);
  }

  -- The macro `GET_DICT`.
  unfoldable pub get_dict : DictHander D → Option D
  get_dict h = slot h h.cur_index

  -- `register_dict<T>`: a null handle is passed over, and any other is filled in and kept.
  unfoldable pub register_dict :
      Bytes
      → Bytes
      → Option D
      → Option (DictHander D)
      → List (Option (DictHander D))
      → List (Option (DictHander D))
  register_dict name path made none vect = vect
  register_dict name path made (some info) vect =
      vect
      ++ some
          (record info { dict_name = name; dict_file_path = path; modify_time = 0; cfunc = made })
        ∷ []

-- What a round sees of the outside: the clock before and after the load, and `get_file_last_mtime`.
pub record Env : Type 0 where
  pub now : ℕ
  pub loaded_at : ℕ
  pub mtime : Bytes → ℕ

-- How a thread of the load ends: it returns, or it flows off the end of a function that has to
-- return a pointer, which is undefined. The handle and what was written to `ret` by then.
pub data ThreadEnd (D : Type 0) : Type 0 where
  returned : DictHander D → Code → ThreadEnd D
  flows_off : DictHander D → Code → ThreadEnd D

module _ {D : Type 0} (base : DictBase D) where
  -- `if (new_dict->init() == 0 && new_dict->load())`: the object if both hold. `none` is an
  -- exception.
  unfoldable pub try_new : D → Option (Option D)
  try_new d =
      let (d', ready) = base.init d in
      let tried : Option (Option D) = elim (base.load d') [
        | none ↦ none
        | some (d'', ok) ↦ some (if ok then some d'' else none)
      ] in
      if ready then some none else tried

  -- What the block behind that condition stores in the handle.
  unfoldable pub install : Env → ℕ → DictHander D → Option (Option D) → Option (DictHander D)
  install env new_mtime h none = none
  install env new_mtime h (some none) = some h
  install env new_mtime h (some (some d)) =
      let bg_idx = 1 - h.cur_index in
      some (record (set_slot h bg_idx (some d)) {
        modify_time = new_mtime;
        load_finish_time = env.loaded_at;
        cur_index = bg_idx;
      })

  -- `auto new_dict = dict->cfunc()` and what follows; the calls on a null pointer end the process.
  unfoldable pub reload : Env → ℕ → DictHander D → Option D → Option (DictHander D)
  reload env new_mtime h none = none
  reload env new_mtime h (some made) = install env new_mtime h (try_new made)

  -- One handle in a round of `check`. `abs(now - load_finish_time > 300)` is the comparison itself.
  unfoldable pub check_one : Env → DictHander D → Option (DictHander D)
  check_one env h = elim (slot h h.cur_index) [
    | none ↦ some h
    | some cur_dict ↦
        let bg_idx = 1 - h.cur_index in
        let stale = not (is_null (slot h bg_idx)) && ltb (h.load_finish_time + 300) env.now in
        let kept = if stale then set_slot h bg_idx none else h in
        let new_mtime = env.mtime (base.get_cur_file cur_dict) in
        let reloaded = reload env new_mtime (set_slot kept bg_idx none) h.cfunc in
        if new_mtime == kept.modify_time then some kept else reloaded
  ]

  -- One handle in as many rounds as there are environments.
  unfoldable pub check_rounds : List Env → DictHander D → Option (DictHander D)
  check_rounds [] h = some h
  check_rounds (env ∷ envs) h = elim (check_one env h) [
    | none ↦ none
    | some h' ↦ check_rounds envs h'
  ]

  -- The `for` loop of one round, from position `i` on. A null handle is passed over.
  unfoldable pub check_all :
      (ℕ → Env) → ℕ → List (Option (DictHander D)) → Option (List (Option (DictHander D)))
  check_all envs i [] = some []
  check_all envs i (none ∷ hs) = Option.map (◌∷◌ none) (check_all envs (suc i) hs)
  check_all envs i (some h ∷ hs) = elim (check_one (envs i) h) [
    | none ↦ none
    | some h' ↦ Option.map (◌∷◌ (some h')) (check_all envs (suc i) hs)
  ]

  -- `load_dict_by_thread`: only the null pointer is followed by a `return`.
  unfoldable pub load_dict_by_thread : (Bytes → ℕ) → DictHander D → Option (ThreadEnd D)
  load_dict_by_thread mtime h = elim (slot h h.cur_index) [
    | none ↦ some (returned h failure)
    | some cur_one ↦ elim (base.load cur_one) [
      | none ↦ none
      | some (d, ok) ↦ some (
          flows_off
            (record (set_slot h h.cur_index (some d)) {
              modify_time = mtime (base.get_cur_file cur_one);
            })
            (if ok then success else failure))
    ]
  ]

-- What a round of the first loop of `parallel_sync_load` meets: the result of
-- `bthread_start_background`, and whether the thread has written `ret` before that result is
-- stored there.
pub record Start : Type 0 where
  pub started : Code
  pub thread_first : Bool

module _ {D : Type 0} (base : DictBase D) (mtime : Bytes → ℕ) where
  -- `args.ret` at the join: the thread and the store of the start's result both write it.
  unfoldable pub final_ret : Start → Code → Code
  final_ret s written = elim s.started [
    | failure ↦ failure
    | success ↦ if s.thread_first then success else written
  ]

  -- One handle in the first loop, until its thread has ended: the handle and the `ret` of its
  -- arguments, or no arguments where the loop goes on. `none` is an exception, or a thread that is
  -- undefined.
  unfoldable pub start_one : Start → DictHander D → Option (DictHander D × Option Code)
  start_one s h = elim h.dict_file_path [
    | [] ↦ some (h, none)
    | c ∷ cs ↦ elim h.cfunc [
      | none ↦ some (set_slot h h.cur_index none, none)
      | some made ↦
          let h' = set_slot h h.cur_index (some (base.init made).0) in
          elim s.started [
            | failure ↦ some (h', some failure)
            | success ↦ elim (load_dict_by_thread base mtime h') [
              | none ↦ none
              | some (returned h'' written) ↦ some (h'', some (final_ret s written))
              | some (flows_off h'' written) ↦ none
            ]
          ]
    ]
  ]

  -- The first loop over the handles from position `i` on, with the `ret` of the arguments that it
  -- used. A null handle is passed over.
  unfoldable pub start_all :
      (ℕ → Start)
      → ℕ
      → List (Option (DictHander D))
      → Option (List (Option (DictHander D)) × List Code)
  start_all starts i [] = some ([], [])
  start_all starts i (none ∷ hs) = elim (start_all starts (suc i) hs) [
    | none ↦ none
    | some (hs', rets) ↦ some (none ∷ hs', rets)
  ]
  start_all starts i (some h ∷ hs) = elim (start_one (starts i) h) [
    | none ↦ none
    | some (h', none) ↦ elim (start_all starts (suc i) hs) [
      | none ↦ none
      | some (hs', rets) ↦ some (some h' ∷ hs', rets)
    ]
    | some (h', some ret) ↦ elim (start_all starts (suc i) hs) [
      | none ↦ none
      | some (hs', rets) ↦ some (some h' ∷ hs', ret ∷ rets)
    ]
  ]

-- The second loop: `-1` at the first `ret` that is not 0. Arguments that were not used hold 0.
unfoldable pub join_all : List Code → Code
join_all [] = success
join_all (success ∷ rets) = join_all rets
join_all (failure ∷ rets) = failure

module _ {D : Type 0} (base : DictBase D) (mtime : Bytes → ℕ) where
  unfoldable pub parallel_sync_load :
      (ℕ → Start) → List (Option (DictHander D)) → Option (List (Option (DictHander D)) × Code)
  parallel_sync_load starts [] = some ([], success)
  parallel_sync_load starts (h ∷ hs) = elim (start_all base mtime starts 0 (h ∷ hs)) [
    | none ↦ none
    | some (hs', rets) ↦ some (hs', join_all rets)
  ]

  -- `run`: the flag says whether the thread of `check` starts. The result of the load is dropped.
  unfoldable pub run :
      (ℕ → Start)
      → Bool
      → List (Option (DictHander D))
      → Option (List (Option (DictHander D)) × Code)
  run starts thread_ok hs = elim (parallel_sync_load starts hs) [
    | none ↦ none
    | some (hs', ret) ↦ some (hs', (if thread_ok then success else failure))
  ]
