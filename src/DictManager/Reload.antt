-- ===== src/DictManager/Reload.antt =====
-- When a round of `check` loads a changed file.
use cpp_freshman.Prelude.{
  ◌+◌, ◌-◌, true, none, some, List, [], ◌∷◌, ◌≡◌, ◌≢◌, refl, inl, inr, arith, ltb, ◌∙◌,
  Option-cases, if◌then◌else◌,
}
use cpp_freshman.DictManager.{
  DictBase, DictHander, set_slot, get_dict, Env, try_new, install, reload, check_one, check_rounds,
}
use cpp_freshman.DictManager.Check.{IsValid, Kept, check_one-publishes}

module _ {D : Type 0} (base : DictBase D) where
  -- A class whose `init` returns `true`.
  abbrev pub InitReturnsTrue : Type 0
  InitReturnsTrue = (d : D) → (base.init d).1 ≡ true

  try_new_ready : InitReturnsTrue → (made : D) → try_new base made ≡ some none
  unfolding try_new
  try_new_ready ready made = rw (ready made)

  check_one-ne-none :
      (env : Env) (h : DictHander D) (made : D)
      → InitReturnsTrue
      → h.cfunc ≡ some made
      → check_one base env h ≢ none
  unfolding check_one reload install
  check_one-ne-none env h made ready c = ground (arith, try_new_ready ready made)

  check_one_ready :
      (env : Env) (h : DictHander D) (made : D)
      → IsValid h
      → InitReturnsTrue
      → h.cfunc ≡ some made
      → (h' : DictHander D) × (check_one base env h ≡ some h') × IsValid h' × Kept h h'
  check_one_ready env h made v ready c = elim (Option-cases (check_one base env h)) [
    | inl e ↦ absurd (check_one-ne-none env h made ready c e)
    | inr (h', e) ↦
        let (v', outcome) = check_one-publishes base env h v e in
        elim outcome [
          | inl kept ↦ (h', e, v', kept)
          | inr p ↦ absurd (ground (arith, ready p.made, p.fresh.not_ready))
        ]
  ]

  -- Where `init` returns `true`, as it does in every dictionary class of the repository, no number
  -- of rounds of `check` ever publishes a file that changed: each round ends, and the dictionary
  -- that `GET_DICT` hands out, the index and the modification time stay as they were.
  pub check_rounds_never_reload :
      (envs : List Env) (h : DictHander D) (made : D)
      → IsValid h
      → InitReturnsTrue
      → h.cfunc ≡ some made
      → (h' : DictHander D) × (check_rounds base envs h ≡ some h')
        × (get_dict h' ≡ get_dict h)
        × (h'.cur_index ≡ h.cur_index)
        × (h'.modify_time ≡ h.modify_time)
  unfolding check_rounds
  check_rounds_never_reload [] h made v ready c = (h, refl, refl, refl, refl)
  check_rounds_never_reload (env ∷ envs) h made v ready c =
      let (h', e, v', kept) = check_one_ready env h made v ready c in
      let (h'', e', d, i, t) =
        check_rounds_never_reload envs h' made v' ready (kept.same_cfunc ∙ c) in
      (h'', rw (e, check_rounds) e', d ∙ kept.same_dict, i ∙ kept.same_index, t ∙ kept.same_times.0)

  -- A round that finds the file as it was: for 300 seconds after the load the handle stays as it
  -- is, and after that the background slot is emptied.
  pub check_one_unchanged :
      (env : Env) (h : DictHander D) (cur : D)
      → get_dict h ≡ some cur
      → env.mtime (base.get_cur_file cur) ≡ h.modify_time
      → check_one base env h
        ≡ some (
            if ltb (h.load_finish_time + 300) env.now then set_slot h (1 - h.cur_index) none else h)
  unfolding check_one get_dict
  check_one_unchanged env h cur g same = ground arith
