-- ===== src/MySharedPtr/Copies.antt =====
-- What a copy of a `MySharedPtr` does.
use cpp_freshman.Prelude.{
  ℕ, [], ◌∷◌, none, some, ◌≡◌, ◌≢◌, refl, ap, ◌∙◌, inl, inr, arith, Option-cases,
}
use cpp_freshman.MySharedPtr.{
  MySharedPtr, set, release, share, State, declare_copy, assign_copy, leave, fine, undefined,
  copy_assign, perform, perform_all, get_count,
}
use cpp_freshman.MySharedPtr.Owned.{Owns}
use cpp_freshman.MySharedPtr.Release.{released, release-Owns}
use cpp_freshman.MySharedPtr.Programs.{none-some}

abbrev pub copied : State → ℕ → MySharedPtr → State
copied s x v = record s { vars = set s.vars x (some v) }

abbrev left_once : State → ℕ → MySharedPtr → State
left_once s x v = record { heap = released s.heap v; vars = set (set s.vars x (some v)) x none }

module _ (s : State) (x y : ℕ) (v : MySharedPtr) (w : Owns s.heap v) where
  declare_copy-copied :
      s.vars x ≡ none → s.vars y ≡ some v → perform s (declare_copy x y) ≡ fine (copied s x v)
  unfolding perform share
  declare_copy-copied e f = ground (arith, w.positive, w.behind)

  leave-left_once : perform (copied s x v) (leave x) ≡ fine (left_once s x v)
  unfolding perform
  leave-left_once =
      let e : (copied s x v).vars x ≡ some v = ground arith in
      ground (arith, e, release-Owns s.heap v w)

  leave_undefined : x ≢ y → s.vars y ≡ some v → perform (left_once s x v) (leave y) ≡ undefined
  unfolding perform release
  leave_undefined d f =
      let e : (left_once s x v).vars y ≡ some v = ground arith in
      let c : (left_once s x v).heap.count v.used_count ≡ none = ground arith in
      ground (arith, e, c, w.behind)

-- A copy of a pointer that owns an object ends well with two variables that point to it, and
-- `get_count` is 1 for them.
pub copy_not_counted :
    (s : State) (x y : ℕ) (v : MySharedPtr)
    → s.vars x ≡ none
    → s.vars y ≡ some v
    → Owns s.heap v
    → (perform s (declare_copy x y) ≡ fine (copied s x v))
      × (((copied s x v).vars x ≡ some v)
          × (((copied s x v).vars y ≡ some v) × (get_count (copied s x v).heap v ≡ some 1)))
unfolding get_count
copy_not_counted s x y v e f w =
    let d : x ≢ y = λ p. none-some (s.vars x) v e (ap s.vars p ∙ f) in
    (
      declare_copy-copied s x y v w e f,
      (ground arith, (ground arith, ground (arith, w.behind, w.counted))),
    )

-- A copy of a pointer that owns an object, followed by the end of scope of both variables, is
-- undefined behaviour: the copy does not count, so the object is deleted by the first and its
-- count is used again by the second.
pub copy_twice_undefined :
    (s : State) (x y : ℕ) (v : MySharedPtr)
    → s.vars x ≡ none
    → s.vars y ≡ some v
    → Owns s.heap v
    → perform_all (declare_copy x y ∷ leave x ∷ leave y ∷ []) s ≡ undefined
unfolding perform_all perform
copy_twice_undefined s x y v e f w =
    let d : x ≢ y = λ p. none-some (s.vars x) v e (ap s.vars p ∙ f) in
    rw (declare_copy-copied s x y v w e f, leave-left_once s x y v w, leave_undefined s x y v w d f)
      refl

copy_assign_null :
    (s : State) (z : ℕ) (u v : MySharedPtr) → v.used_count ≡ 0 → copy_assign s z u v ≡ undefined
unfolding copy_assign share
copy_assign_null s z u v n = elim (Option-cases (release s.heap u)) [
  | inl e ↦ ground (arith, e)
  | inr (h, e) ↦ ground (arith, e)
]

-- A copy of a null pointer is undefined behaviour, as a declaration and as an assignment.
pub copy_null_undefined :
    (s : State) (x z y : ℕ) (u v : MySharedPtr)
    → s.vars x ≡ none
    → s.vars z ≡ some u
    → s.vars y ≡ some v
    → z ≢ y
    → v.used_count ≡ 0
    → (perform s (declare_copy x y) ≡ undefined) × (perform s (assign_copy z y) ≡ undefined)
unfolding perform share
copy_null_undefined s x z y u v e f g d n =
    (ground arith, ground (arith, copy_assign_null s z u v n))
