-- ===== src/DictManager/Check.antt =====
-- One round of `check` over one handle.
use cpp_freshman.Prelude.{
  ℕ, ◌-◌, ◌≤◌, Bool, true, false, Option, none, some, ◌≡◌, refl, ◌⊎◌, inl, inr, arith,
  if◌then◌else◌, Option-cases,
}
use cpp_freshman.DictManager.{
  DictBase, DictHander, slot, set_slot, get_dict, Env, try_new, install, reload, check_one,
}

module _ {D : Type 0} where
  -- The index names one of the two slots.
  abbrev pub IsValid : DictHander D → Type 0
  IsValid h = h.cur_index ≤ 1

  -- The other slot.
  abbrev pub background : DictHander D → Option D
  background h = slot h (1 - h.cur_index)

  -- A round that publishes nothing: at most the background slot is emptied.
  pub record Kept (h h' : DictHander D) : Type 0 where
    pub same_index : h'.cur_index ≡ h.cur_index
    pub same_dict : get_dict h' ≡ get_dict h
    pub same_times : (h'.modify_time ≡ h.modify_time) × (h'.load_finish_time ≡ h.load_finish_time)
    pub same_cfunc : h'.cfunc ≡ h.cfunc
    pub background_kept : (background h' ≡ background h) ⊎ (background h' ≡ none)

module _ {D : Type 0} (base : DictBase D) where
  -- A fresh object that both calls accept; `init` accepts by returning `false`.
  pub record Fresh (made d : D) : Type 0 where
    pub not_ready : (base.init made).1 ≡ false
    pub loads : base.load (base.init made).0 ≡ some (d, true)

  try_new-Fresh : (made d : D) → try_new base made ≡ some (some d) → Fresh made d
  unfolding try_new
  try_new-Fresh made d h = ground arith

  -- A round that publishes a fresh dictionary: the index changes over, and the old dictionary stays
  -- in the background slot.
  pub record Published (env : Env) (h h' : DictHander D) : Type 0 where
    pub changed_over : h'.cur_index ≡ 1 - h.cur_index
    pub made : D
    pub d : D
    pub constructed : h.cfunc ≡ some made
    pub fresh : Fresh made d
    pub published : get_dict h' ≡ some d
    pub old_kept : background h' ≡ get_dict h
    pub times : h'.load_finish_time ≡ env.loaded_at
    pub same_cfunc : h'.cfunc ≡ h.cfunc

  abbrev Outcome : Env → DictHander D → Option (DictHander D) → Type 0
  Outcome env h none = Unit
  Outcome env h (some h') = IsValid h' × (Kept h h' ⊎ Published env h h')

  cleared_Kept : (h : DictHander D) → IsValid h → Kept h (set_slot h (1 - h.cur_index) none)
  unfolding get_dict
  cleared_Kept h v = ground arith

  unchanged_Kept : (h : DictHander D) → Kept h h
  unchanged_Kept h = ground arith

  published_Outcome :
      (env : Env) (t : ℕ) (h : DictHander D) (made d : D)
      → IsValid h
      → h.cfunc ≡ some made
      → Fresh made d
      → Outcome env h (
          some (record (set_slot (set_slot h (1 - h.cur_index) none) (1 - h.cur_index) (some d)) {
            modify_time = t;
            load_finish_time = env.loaded_at;
            cur_index = 1 - h.cur_index;
          }))
  unfolding get_dict
  published_Outcome env t h made d v c f = (
    ground arith,
    inr (record {
      changed_over = ground arith;
      made = made;
      d = d;
      constructed = c;
      fresh = f;
      published = ground arith;
      old_kept = ground arith;
      times = ground arith;
      same_cfunc = ground arith;
    }),
  )

  set_slot_twice :
      (h : DictHander D) (i : ℕ) (x y : Option D) → set_slot (set_slot h i x) i y ≡ set_slot h i y
  set_slot_twice h i x y = ground arith

  install_Outcome :
      (env : Env) (t : ℕ) (h : DictHander D) (made : D) (tried : Option (Option D))
      → IsValid h
      → h.cfunc ≡ some made
      → try_new base made ≡ tried
      → Outcome env h (install base env t (set_slot h (1 - h.cur_index) none) tried)
  unfolding install
  install_Outcome env t h made none v c e = tt
  install_Outcome env t h made (some none) v c e = (v, inl (cleared_Kept h v))
  install_Outcome env t h made (some (some d)) v c e =
      published_Outcome env t h made d v c (try_new-Fresh made d e)

  reload_Outcome :
      (env : Env) (t : ℕ) (h : DictHander D) (c : Option D)
      → IsValid h
      → h.cfunc ≡ c
      → Outcome env h (reload base env t (set_slot h (1 - h.cur_index) none) c)
  unfolding reload
  reload_Outcome env t h none v e = tt
  reload_Outcome env t h (some made) v e = install_Outcome env t h made (try_new base made) v e refl

  -- The tests of a round: whether the background slot is stale, and whether the times agree.
  rest_Outcome :
      (env : Env) (t : ℕ) (h : DictHander D) (stale same : Bool)
      → IsValid h
      → Outcome env h (
          let kept = if stale then set_slot h (1 - h.cur_index) none else h in
          if same
          then some kept
          else reload base env t (set_slot kept (1 - h.cur_index) none) h.cfunc)
  rest_Outcome env t h true true v = (v, inl (cleared_Kept h v))
  rest_Outcome env t h false true v = (v, inl (unchanged_Kept h))
  rest_Outcome env t h true false v =
      rw (set_slot_twice h (1 - h.cur_index) none none) (reload_Outcome env t h h.cfunc v refl)
  rest_Outcome env t h false false v = reload_Outcome env t h h.cfunc v refl

  check_one_Outcome :
      (env : Env) (h : DictHander D) → IsValid h → Outcome env h (check_one base env h)
  unfolding check_one
  check_one_Outcome env h v = elim (Option-cases (slot h h.cur_index)) [
    | inl e ↦ rw (e, check_one) (v, inl (unchanged_Kept h))
    | inr (cur_dict, e) ↦ rw (e, check_one) (rest_Outcome env _ h _ _ v)
  ]

  -- A round of `check` over a handle whose index names a slot, if no exception ends the process,
  -- leaves such a handle. Either it publishes nothing: the dictionary that `GET_DICT` hands out, the
  -- index and both times are as before, and at most the background slot was emptied. Or it
  -- publishes a fresh object that `init` and `load` have accepted, and the dictionary that was
  -- handed out before stays in the background slot.
  pub check_one-publishes :
      (env : Env) (h : DictHander D) {h' : DictHander D}
      → IsValid h
      → check_one base env h ≡ some h'
      → IsValid h' × (Kept h h' ⊎ Published env h h')
  check_one-publishes env h v e = rw e at (check_one_Outcome env h v)
