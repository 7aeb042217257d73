-- ===== src/DictManager/Readers.antt =====
-- `GET_DICT` of example/brpc/plugins/dict/dict_manager.h while `check` runs: it loads the index and
-- then copies the pointer at it, and a round of `check` can come between.
use cpp_freshman.Prelude.{ℕ, ◌-◌, Option, some, ◌≡◌, ◌⊎◌, inl, inr, arith}
use cpp_freshman.DictManager.{DictBase, DictHander, slot, get_dict, Env, check_one}
use cpp_freshman.DictManager.Check.{IsValid, Published, check_one-publishes}

-- The two steps of `GET_DICT`.
abbrev pub load_index : {D : Type 0} → DictHander D → ℕ
load_index h = h.cur_index

abbrev pub copy_dict : {D : Type 0} → ℕ → DictHander D → Option D
copy_dict index h = slot h index

module _ {D : Type 0} (base : DictBase D) where
  -- A reader of a handle whose index names a slot, with a round of `check` between its two steps
  -- that no exception ends, still gets the dictionary that was handed out when it loaded the
  -- index, whether or not the round publishes another one. A reader that begins after the round
  -- gets that dictionary, or a fresh one that has loaded.
  pub copy_dict-check_one :
      (env : Env) (h h' : DictHander D)
      → IsValid h
      → check_one base env h ≡ some h'
      → (copy_dict (load_index h) h' ≡ get_dict h)
        × ((copy_dict (load_index h') h' ≡ get_dict h) ⊎ Published base env h h')
  unfolding get_dict
  copy_dict-check_one env h h' v e = elim (check_one-publishes base env h v e).1 [
    | inl k ↦ (rw k.same_index at k.same_dict, inl k.same_dict)
    | inr p ↦
        let f : 1 - h'.cur_index ≡ h.cur_index = omega (arith, v, p.changed_over) in
        (rw f at p.old_kept, inr p)
  ]
