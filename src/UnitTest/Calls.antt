-- ===== src/UnitTest/Calls.antt =====
-- The operations on objects of `UnitTestClass`, one by one.
use cpp_freshman.Prelude.{ℕ, some, List, ◌∷◌, ◌≡◌, refl, arith, get_elem?, ◌∙◌}
use cpp_freshman.UnitTest.{
  construct, copy_construct, move_construct, copy_assigns, move_assigns, destruct, shows, Objects,
  drop_object, set_object, new_object, show, construct_object, destroy_object, copy_object,
  copy_assign_object, move_object, move_assign_object, copy_obj, show_object, opt_func, func_of_new,
}
use cpp_freshman.UnitTest.Lifetimes.{
  IsAlive, Gives, IsAlive-new, IsAlive-data, IsAlive-line, find_local, drop_newest,
  places-set_object,
}

module _ {A : Type 0} where
  pub destroy_newest :
      (a : ℕ) (ls : List ℕ) (s : Objects A) → IsAlive (a ∷ ls) s → Gives ls (destroy_object a s)
  unfolding destroy_object
  destroy_newest a ls s h =
      let (x, f, e) = drop_newest a ls s.live h.places_at in
      (
        record s { live = drop_object a s.live; log = destruct a ∷ s.log },
        rw (destroy_object, f) refl,
        record {
          places_at = e;
          made_at = h.made_at;
          destroyed_at = λ i. omega (arith, h.destroyed_at i);
        },
      )

  pub copy_local :
      (n a : ℕ) (ls : List ℕ) (s : Objects A)
      → IsAlive ls s
      → get_elem? ls n ≡ some a
      → Gives (s.next ∷ ls) (copy_object a s)
  unfolding copy_object
  copy_local n a ls s h e =
      let (x, f) = find_local n a ls s h e in
      (
        new_object copy_construct x s,
        rw (copy_object, f) refl,
        IsAlive-new copy_construct (λ i b es. (refl, refl)) ls s x h,
      )

  pub show_local :
      (n a : ℕ) (ls : List ℕ) (s : Objects A)
      → IsAlive ls s
      → get_elem? ls n ≡ some a
      → Gives ls (show_object a s)
  unfolding show_object
  show_local n a ls s h e =
      let (x, f) = find_local n a ls s h e in
      (show x s, rw (show_object, f) refl, IsAlive-line (shows x) ls s (λ i. (refl, refl)) h)

  module _ (moved : A → A) where
    pub move_local :
        (n a : ℕ) (ls : List ℕ) (s : Objects A)
        → IsAlive ls s
        → get_elem? ls n ≡ some a
        → Gives (s.next ∷ ls) (move_object moved a s)
    unfolding move_object
    move_local n a ls s h e =
        let (x, f) = find_local n a ls s h e in
        let us = set_object a (moved x) s.live in
        (
          new_object move_construct x (record s { live = us }),
          rw (move_object, f) refl,
          IsAlive-new move_construct (λ i b es. (refl, refl)) ls (record s { live = us }) x
              (IsAlive-data us ls s (places-set_object a (moved x) s.live) h),
        )

    pub move_assign_local :
        (m n a b : ℕ) (ls : List ℕ) (s : Objects A)
        → IsAlive ls s
        → get_elem? ls m ≡ some a
        → get_elem? ls n ≡ some b
        → Gives ls (move_assign_object moved a b s)
    unfolding move_assign_object
    move_assign_local m n a b ls s h e f =
        let (x, g) = find_local n b ls s h f in
        let (y, k) = find_local m a ls s h e in
        let us = set_object a x (set_object b (moved x) s.live) in
        (
          record s { live = us; log = move_assigns a ∷ s.log },
          rw (move_assign_object, g, k) refl,
          IsAlive-line (move_assigns a) ls (record s { live = us }) (λ i. (refl, refl))
              (IsAlive-data us ls s
                (places-set_object a x (set_object b (moved x) s.live)
                  ∙ places-set_object b (moved x) s.live)
                h),
        )

  pub copy_assign_local :
      (m n a b : ℕ) (ls : List ℕ) (s : Objects A)
      → IsAlive ls s
      → get_elem? ls m ≡ some a
      → get_elem? ls n ≡ some b
      → Gives ls (copy_assign_object a b s)
  unfolding copy_assign_object
  copy_assign_local m n a b ls s h e f =
      let (x, g) = find_local n b ls s h f in
      let (y, k) = find_local m a ls s h e in
      let us = set_object a x s.live in
      (
        record s { live = us; log = copy_assigns a ∷ s.log },
        rw (copy_assign_object, g, k) refl,
        IsAlive-line (copy_assigns a) ls (record s { live = us }) (λ i. (refl, refl))
            (IsAlive-data us ls s (places-set_object a x s.live) h),
      )

  pub copy_obj-Gives :
      (n a : ℕ) (ls : List ℕ) (s : Objects A)
      → IsAlive ls s
      → get_elem? ls n ≡ some a
      → Gives ls (copy_obj a s)
  unfolding copy_obj
  copy_obj-Gives n a ls s h e =
      let (t, f, k) = copy_local n a ls s h e in
      let (u, g, l) = destroy_newest s.next ls t k in (u, rw (copy_obj, f, g) refl, l)

  pub opt_func-Gives :
      (n a : ℕ) (ls : List ℕ) (s : Objects A)
      → IsAlive ls s
      → get_elem? ls n ≡ some a
      → Gives ls (opt_func a s)
  unfolding opt_func
  opt_func-Gives n a ls s h e =
      let (t, f, k) = copy_local n a ls s h e in
      let (v, g, l) = show_local 0 s.next (s.next ∷ ls) t k refl in
      let (u, d, i) = destroy_newest s.next ls v l in (u, rw (opt_func, f, g, d) refl, i)

  pub func_of_new-Gives :
      (x : A) (ls : List ℕ) (s : Objects A) → IsAlive ls s → Gives ls (func_of_new x s)
  unfolding construct_object func_of_new
  func_of_new-Gives x ls s h =
      let k = IsAlive-new construct (λ i b es. (refl, refl)) ls s x h in
      let (v, g, l) = show_local 0 s.next (s.next ∷ ls) (new_object construct x s) k refl in
      let (u, d, i) = destroy_newest s.next ls v l in
      (u, rw (func_of_new, construct_object, g, d) refl, i)
