-- ===== src/MySharedPtr/Programs.antt =====
-- Programs that only move `MySharedPtr`s.
use cpp_freshman.Prelude.{
  ℕ, List, [], ◌∷◌, Bool, true, false, Option, none, some, ◌≡◌, ◌≢◌, refl, inl, inr, ◌==◌, arith,
  Bool-cases, Option-cases,
}
use cpp_freshman.MySharedPtr.{
  MySharedPtr, null, set, State, Statement, declare_null, declare_new, declare_copy, declare_move,
  assign_copy, assign_move, leave, Result, fine, undefined, wrong, bind_result, move_assign,
  perform, perform_all, initial,
}
use mathlib.Core.Path.{subst}
use cpp_freshman.MySharedPtr.Owned.{IsOwned, IsOwned-ext, null-IsOwned, make-IsOwned, move-IsOwned}
use cpp_freshman.MySharedPtr.Release.{release-Ends}

-- A program without copies.
unfoldable pub all_moves : List Statement → Bool
all_moves [] = true
all_moves (declare_copy x y ∷ cs) = false
all_moves (assign_copy x y ∷ cs) = false
all_moves (declare_null x ∷ cs) = all_moves cs
all_moves (declare_new x ∷ cs) = all_moves cs
all_moves (declare_move x y ∷ cs) = all_moves cs
all_moves (assign_move x y ∷ cs) = all_moves cs
all_moves (leave x ∷ cs) = all_moves cs

-- No undefined behaviour, and each object that is alive has exactly one owner.
unfoldable pub IsSafe : Result → Type 0
IsSafe (fine s) = IsOwned s.heap s.vars
IsSafe undefined = ⊥
IsSafe wrong = Unit

module _ (s : State) (o : IsOwned s.heap s.vars) where
  declare_null-IsSafe : (x : ℕ) → IsSafe (perform s (declare_null x))
  unfolding perform IsSafe
  declare_null-IsSafe x = elim (Option-cases (s.vars x)) [
    | inl e ↦ rw (e, IsSafe) (null-IsOwned s.heap s.vars o x e)
    | inr (v, e) ↦ rw (e, IsSafe) tt
  ]

  declare_new-IsSafe : (x : ℕ) → IsSafe (perform s (declare_new x))
  unfolding perform IsSafe
  declare_new-IsSafe x = elim (Option-cases (s.vars x)) [
    | inl e ↦ rw (e, IsSafe) (make-IsOwned s.heap s.vars o x e)
    | inr (v, e) ↦ rw (e, IsSafe) tt
  ]

  declare_move-IsSafe : (x y : ℕ) → IsSafe (perform s (declare_move x y))
  unfolding perform IsSafe
  declare_move-IsSafe x y = elim (Option-cases (s.vars x)) [
    | inl e ↦ elim (Option-cases (s.vars y)) [
      | inl f ↦ rw (e, f, IsSafe) tt
      | inr (w, f) ↦ rw (e, f, IsSafe) (move-IsOwned s.heap s.vars o x y w e f)
    ]
    | inr (v, e) ↦ rw (e, IsSafe) tt
  ]

  move_assign-IsSafe :
      (x y : ℕ) (this other : MySharedPtr)
      → s.vars x ≡ some this
      → s.vars y ≡ some other
      → x ≢ y
      → IsSafe (move_assign s x y this other)
  unfolding move_assign IsSafe
  move_assign-IsSafe x y this other e f d =
      let r = release-Ends s.heap s.vars o x this e in
      rw (r.ends, IsSafe)
        (IsOwned-ext r.heap (set (set (set s.vars x none) x (some other)) y (some null))
          (move-IsOwned r.heap (set s.vars x none) r.left x y other (ground arith) (ground arith))
          (set (set s.vars x (some other)) y (some null)) (λ z. ground arith))

  assign_move-IsSafe : (x y : ℕ) → IsSafe (perform s (assign_move x y))
  unfolding perform IsSafe
  assign_move-IsSafe x y = elim (Option-cases (s.vars x)) [
    | inl e ↦ rw (e, IsSafe) tt
    | inr (v, e) ↦ elim (Option-cases (s.vars y)) [
      | inl f ↦ rw (e, f, IsSafe) tt
      | inr (w, f) ↦ elim (Bool-cases (x == y)) [
        | inl g ↦ rw (e, f, g, IsSafe) o
        | inr g ↦ rw (e, f, g, IsSafe) (move_assign-IsSafe x y v w e f (ground arith))
      ]
    ]
  ]

  leave-IsSafe : (x : ℕ) → IsSafe (perform s (leave x))
  unfolding perform IsSafe
  leave-IsSafe x = elim (Option-cases (s.vars x)) [
    | inl e ↦ rw (e, IsSafe) tt
    | inr (v, e) ↦ let r = release-Ends s.heap s.vars o x v e in rw (e, r.ends, IsSafe) r.left
  ]

perform-IsSafe :
    (c : Statement) (cs : List Statement) (s : State)
    → all_moves (c ∷ cs) ≡ true
    → IsOwned s.heap s.vars
    → IsSafe (perform s c)
unfolding all_moves
perform-IsSafe (declare_null x) cs s h o = declare_null-IsSafe s o x
perform-IsSafe (declare_new x) cs s h o = declare_new-IsSafe s o x
perform-IsSafe (declare_copy x y) cs s h o = ground arith
perform-IsSafe (declare_move x y) cs s h o = declare_move-IsSafe s o x y
perform-IsSafe (assign_copy x y) cs s h o = ground arith
perform-IsSafe (assign_move x y) cs s h o = assign_move-IsSafe s o x y
perform-IsSafe (leave x) cs s h o = leave-IsSafe s o x

all_moves-tail :
    (c : Statement) (cs : List Statement) → all_moves (c ∷ cs) ≡ true → all_moves cs ≡ true
unfolding all_moves
all_moves-tail c cs h = ground arith

bind_result-IsSafe :
    (r : Result) (f : State → Result)
    → IsSafe r
    → ((s : State) → IsOwned s.heap s.vars → IsSafe (f s))
    → IsSafe (bind_result r f)
unfolding IsSafe
bind_result-IsSafe (fine s) f o k = k s o
bind_result-IsSafe undefined f o k = o
bind_result-IsSafe wrong f o k = tt

-- A program without copies, from a state in which each object that is alive has exactly one owner,
-- never meets undefined behaviour; and where no variable is used out of its scope or declared in
-- it, the program ends with exactly one owner for each object that is alive, with a count of 1.
pub perform_all-IsSafe :
    (cs : List Statement) (s : State)
    → all_moves cs ≡ true
    → IsOwned s.heap s.vars
    → IsSafe (perform_all cs s)
unfolding perform_all IsSafe
perform_all-IsSafe [] s h o = o
perform_all-IsSafe (c ∷ cs) s h o =
    bind_result-IsSafe (perform s c) (λ s'. perform_all cs s') (perform-IsSafe c cs s h o)
      (λ s' o'. perform_all-IsSafe cs s' (all_moves-tail c cs h) o')

pub initial-IsOwned : IsOwned initial.heap initial.vars
unfolding initial
initial-IsOwned = record {
  valid = (λ x v e. ground arith);
  unique = (λ x y v w e. ground arith);
  owned = (λ a e. ground arith);
  used = (λ a e. ground arith);
  fresh = ground arith;
  none_at_null = refl;
}

pub none-some : (o : Option MySharedPtr) (v : MySharedPtr) → o ≡ none → o ≡ some v → ⊥
none-some o v e f = ground arith

-- Where such a program starts with no variable and ends with none, it has deleted every object.
pub perform_all_no_leak :
    (cs : List Statement) (s : State)
    → all_moves cs ≡ true
    → perform_all cs initial ≡ fine s
    → ((x : ℕ) → s.vars x ≡ none)
    → (a : ℕ) → s.heap.object a ≡ false
unfolding IsSafe
perform_all_no_leak cs s h e none_left a =
    let o = subst IsSafe e (perform_all-IsSafe cs initial h initial-IsOwned) in
    elim (Bool-cases (s.heap.object a)) [
      | inl f ↦
          let w = o.owned a f in
          elim (none-some (s.vars w.var) w.value (none_left w.var) w.there) [ ]
      | inr f ↦ f
    ]
