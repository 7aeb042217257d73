-- ===== src/DictManager/Startup.antt =====
-- The parallel load at the start, whose threads flow off the end of their function.
use cpp_freshman.Prelude.{
  if◌then◌else◌, ℕ, suc, Option, none, some, List, [], ◌∷◌, ◌≡◌, ◌≢◌, ◌⊎◌, refl, inl, inr, arith,
  Option-cases, Bytes,
}
use cpp_freshman.DictManager.{
  flows_off, DictBase, DictHander, Code, success, failure, slot, set_slot, get_dict,
  load_dict_by_thread, Start, start_one, start_all, join_all, parallel_sync_load,
}

module _ {D : Type 0} (base : DictBase D) where
  -- A handle for which a thread is asked for, with the object that its constructor makes.
  abbrev pub Asks : DictHander D → D → Type 0
  Asks h made = (h.dict_file_path ≢ []) × (h.cfunc ≡ some made)

  -- A handle whose thread runs.
  abbrev pub IsStarted : Start → DictHander D → Type 0
  IsStarted s h = (s.started ≡ success) × ((made : D) × Asks h made)

  -- A handle that the first loop passes over: one without a path stays as it is, and one whose
  -- constructor makes nothing is left with nothing to hand out.
  abbrev pub IsPassed : DictHander D → DictHander D → Type 0
  IsPassed h h' = ((h.dict_file_path ≡ []) × (h' ≡ h)) ⊎ ((h.cfunc ≡ none) × (get_dict h' ≡ none))

  -- A handle whose thread could not be started: it hands out an object that was not loaded.
  abbrev pub IsUnloaded : Start → DictHander D → DictHander D → Type 0
  IsUnloaded s h h' =
      (s.started ≡ failure) × ((made : D) × Asks h made × (get_dict h' ≡ some (base.init made).0))

  -- Some handle's thread runs.
  abbrev pub SomeStarted : (ℕ → Start) → ℕ → List (Option (DictHander D)) → Type 0
  SomeStarted starts i [] = ⊥
  SomeStarted starts i (none ∷ hs) = SomeStarted starts (suc i) hs
  SomeStarted starts i (some h ∷ hs) = IsStarted (starts i) h ⊎ SomeStarted starts (suc i) hs

  -- No handle's thread runs, and the load has this result: a failure just where a thread could not
  -- be started.
  abbrev pub NoneStarted :
      (ℕ → Start) → ℕ → List (Option (DictHander D)) → List (Option (DictHander D)) → Code → Type 0
  NoneStarted starts i [] [] r = r ≡ success
  NoneStarted starts i (none ∷ hs) (none ∷ hs') r = NoneStarted starts (suc i) hs hs' r
  NoneStarted starts i (some h ∷ hs) (some h' ∷ hs') r =
      (IsPassed h h' × NoneStarted starts (suc i) hs hs' r)
      ⊎ (IsUnloaded (starts i) h h'
          × (r ≡ failure)
          × ((r' : Code) × NoneStarted starts (suc i) hs hs' r'))
  NoneStarted starts i _ _ r = ⊥

List-cases : (path : Bytes) → (path ≡ []) ⊎ ((c : ℕ) × (cs : Bytes) × (path ≡ c ∷ cs))
List-cases [] = inl refl
List-cases (c ∷ cs) = inr (c, cs, refl)

pub Code-cases : (r : Code) → (r ≡ success) ⊎ (r ≡ failure)
Code-cases success = inl refl
Code-cases failure = inr refl

module _ {D : Type 0} (base : DictBase D) (mtime : Bytes → ℕ) where
  slot-set_slot :
      (h : DictHander D) (d : Option D) → slot (set_slot h h.cur_index d) h.cur_index ≡ d
  slot-set_slot h d = ground arith

  -- A thread that finds an object never returns.
  load_dict_by_thread-set_slot :
      (h : DictHander D) (d : D)
      → (load_dict_by_thread base mtime (set_slot h h.cur_index (some d)) ≡ none)
        ⊎ ((h' : DictHander D) × (r : Code) × (load_dict_by_thread base mtime
                (set_slot h h.cur_index (some d))
              ≡ some (flows_off h' r)))
  unfolding load_dict_by_thread
  load_dict_by_thread-set_slot h d = elim (Option-cases (base.load d)) [
    | inl e ↦ inl (rw (load_dict_by_thread, slot-set_slot h (some d), e) refl)
    | inr ((d', ok), e) ↦ inr (
      record (set_slot (set_slot h h.cur_index (some d)) h.cur_index (some d')) {
        modify_time = mtime (base.get_cur_file d);
      },
      if ok then success else failure,
      rw (load_dict_by_thread, slot-set_slot h (some d), e) refl,
    )
  ]

  -- A handle whose thread runs.
  pub start_one_undefined :
      (s : Start) (h : DictHander D) (made : D)
      → s.started ≡ success
      → Asks base h made
      → start_one base mtime s h ≡ none
  unfolding start_one
  start_one_undefined s h made g (path, f) = elim (List-cases h.dict_file_path) [
    | inl e ↦ absurd (path e)
    | inr (c, cs, e) ↦ elim (load_dict_by_thread-set_slot h (base.init made).0) [
      | inl l ↦ ground (arith, e, f, g, l)
      | inr (h', r, l) ↦ ground (arith, e, f, g, l)
    ]
  ]

  -- What becomes of one handle.
  start_one-outcome :
      (s : Start) (h : DictHander D)
      → (IsStarted base s h × (start_one base mtime s h ≡ none))
        ⊎ ((h' : DictHander D) × (start_one base mtime s h ≡ some (h', none)) × IsPassed base h h')
        ⊎ ((h' : DictHander D) × (start_one base mtime s h ≡ some (h', some failure))
            × IsUnloaded base s h h')
  unfolding start_one get_dict
  start_one-outcome s h = elim (List-cases h.dict_file_path) [
    | inl e ↦ inr (inl (h, ground (arith, e), inl (e, refl)))
    | inr (c, cs, e) ↦ elim (Option-cases h.cfunc) [
      | inl f ↦
          inr
            (inl (set_slot h h.cur_index none, ground (arith, e, f), inr (f, slot-set_slot h none)))
      | inr (made, f) ↦
          let asks : Asks base h made = (ground (arith, e), f) in
          elim (Code-cases s.started) [
            | inl g ↦ inl ((g, (made, asks)), start_one_undefined s h made g asks)
            | inr g ↦ inr (
                inr (
                  set_slot h h.cur_index (some (base.init made).0),
                  ground (arith, e, f, g),
                  (g, (made, asks, slot-set_slot h (some (base.init made).0))),
                ))
          ]
    ]
  ]

  -- What becomes of all of them from a position on.
  start_all-outcome :
      (starts : ℕ → Start) (i : ℕ) (hs : List (Option (DictHander D)))
      → (SomeStarted base starts i hs × (start_all base mtime starts i hs ≡ none))
        ⊎ ((hs' : List (Option (DictHander D))) × (rets : List Code) × (start_all base mtime starts
                i hs
              ≡ some (hs', rets))
            × NoneStarted base starts i hs hs' (join_all rets))
  unfolding start_all join_all
  start_all-outcome starts i [] = inr ([], [], refl, refl)
  start_all-outcome starts i (none ∷ hs) = elim (start_all-outcome starts (suc i) hs) [
    | inl (some_one, e) ↦ inl (some_one, rw (start_all, e) refl)
    | inr (hs', rets, e, left) ↦ inr (none ∷ hs', rets, rw (start_all, e) refl, left)
  ]
  start_all-outcome starts i (some h ∷ hs) = elim (start_one-outcome (starts i) h) [
    | inl (started, e) ↦ inl (inl started, rw (start_all, e) refl)
    | inr (inl (h', e, passed)) ↦ elim (start_all-outcome starts (suc i) hs) [
      | inl (some_one, f) ↦ inl (inr some_one, rw (start_all, e, f) refl)
      | inr (hs', rets, f, left) ↦
          inr (some h' ∷ hs', rets, rw (start_all, e, f) refl, inl (passed, left))
    ]
    | inr (inr (h', e, unloaded)) ↦ elim (start_all-outcome starts (suc i) hs) [
      | inl (some_one, f) ↦ inl (inr some_one, rw (start_all, e, f) refl)
      | inr (hs', rets, f, left) ↦ inr (
        some h' ∷ hs',
        failure ∷ rets,
        rw (start_all, e, f) refl,
        inr (unloaded, refl, (join_all rets, left)),
      )
    ]
  ]

  -- The load is undefined if the thread of any handle is started. Where none is, it answers a
  -- failure just where a thread was asked for and could not be started; a handle without a path stays as it is, one whose constructor makes nothing hands out
  -- nothing, and any other hands out a new object that was not loaded.
  pub parallel_sync_load-outcome :
      (starts : ℕ → Start) (hs : List (Option (DictHander D)))
      → (SomeStarted base starts 0 hs × (parallel_sync_load base mtime starts hs ≡ none))
        ⊎ ((hs' : List (Option (DictHander D))) × (r : Code) × (parallel_sync_load base mtime starts
                hs
              ≡ some (hs', r))
            × NoneStarted base starts 0 hs hs' r)
  unfolding parallel_sync_load
  parallel_sync_load-outcome starts [] = inr ([], success, refl, refl)
  parallel_sync_load-outcome starts (h ∷ hs) = elim (start_all-outcome starts 0 (h ∷ hs)) [
    | inl (some_one, e) ↦ inl (some_one, rw (parallel_sync_load, e) refl)
    | inr (hs', rets, e, left) ↦ inr (hs', join_all rets, rw (parallel_sync_load, e) refl, left)
  ]
