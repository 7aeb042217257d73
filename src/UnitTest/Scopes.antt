-- ===== src/UnitTest/Scopes.antt =====
-- A scope from its first object to its end.
use Prim.Native.Nat.{suc}
use cpp_freshman.Prelude.{
  ℕ, ◌<◌, Option, some, List, [], ◌∷◌, ◌≡◌, refl, arith, ltb, if◌then◌else◌, length,
}
use cpp_freshman.UnitTest.{
  construct, UnitTestClass, Objects, no_objects, construct_object, get_copy_obj, default_func,
  ScopeStep, gets, copies, copies_new, opts, defaults, moves_new, opts_new, defaults_new, assigns,
  move_assigns_to, perform_statement, end_scope, perform_scope,
}
use cpp_freshman.Prelude.{get_elem?-drop}
use cpp_freshman.UnitTest.Lifetimes.{made, places, destroyed, IsAlive, Gives, IsAlive-new}
use cpp_freshman.UnitTest.Calls.{
  copy_local, show_local, move_local, destroy_newest, move_assign_local, copy_assign_local,
  copy_obj-Gives, opt_func-Gives, func_of_new-Gives,
}

-- The statements name only objects that are in scope.
abbrev pub IsScoped : {A : Type 0} → ℕ → List (ScopeStep A) → Type 0
IsScoped k [] = Unit
IsScoped k (gets x ∷ cs) = IsScoped (suc k) cs
IsScoped k (copies n ∷ cs) = (n < k) × IsScoped k cs
IsScoped k (copies_new n ∷ cs) = (n < k) × IsScoped (suc k) cs
IsScoped k (moves_new n ∷ cs) = (n < k) × IsScoped (suc k) cs
IsScoped k (opts n ∷ cs) = (n < k) × IsScoped k cs
IsScoped k (defaults n ∷ cs) = (n < k) × IsScoped k cs
IsScoped k (opts_new x ∷ cs) = IsScoped k cs
IsScoped k (defaults_new x ∷ cs) = IsScoped k cs
IsScoped k (assigns m n ∷ cs) = (m < k) × (n < k) × IsScoped k cs
IsScoped k (move_assigns_to m n ∷ cs) = (m < k) × (n < k) × IsScoped k cs

module _ {A : Type 0} (moved : A → A) where
  places-nil : (us : List (UnitTestClass A)) → places us ≡ [] → us ≡ []
  places-nil [] e = refl
  places-nil (u ∷ us) e = ground arith

  pub end_scope-IsAlive :
      (ls : List ℕ) (s : Objects A) → IsAlive ls s → Gives [] (end_scope moved ls s)
  unfolding end_scope
  end_scope-IsAlive [] s h = (s, refl, h)
  end_scope-IsAlive (a ∷ ls) s h =
      let (t, f, i) = destroy_newest a ls s h in
      let (u, g, j) = end_scope-IsAlive ls t i in (u, rw (end_scope, f) g, j)

  -- A statement that is defined, and what is left of the statements after it.
  abbrev pub Performs : Option (List ℕ × Objects A) → List (ScopeStep A) → Type 0
  Performs o cs =
      (ls : List ℕ) × (t : Objects A) × (o ≡ some (ls, t)) × IsAlive ls t × IsScoped (length ls) cs

  perform_statement-IsAlive :
      (c : ScopeStep A) (cs : List (ScopeStep A)) (ls : List ℕ) (s : Objects A)
      → IsAlive ls s
      → IsScoped (length ls) (c ∷ cs)
      → Performs (perform_statement moved c ls s) cs
  unfolding perform_statement get_copy_obj construct_object default_func
  perform_statement-IsAlive (gets x) cs ls s h k =
      (s.next ∷ ls, _, refl, IsAlive-new construct (λ i b es. (refl, refl)) ls s x h, k)
  perform_statement-IsAlive (copies n) cs ls s h (lt, k) =
      let (a, e, r) = get_elem?-drop n ls lt in
      let (t, f, i) = copy_obj-Gives n a ls s h e in (ls, t, rw (e, f) refl, i, k)
  perform_statement-IsAlive (copies_new n) cs ls s h (lt, k) =
      let (a, e, r) = get_elem?-drop n ls lt in
      let (t, f, i) = copy_local n a ls s h e in (s.next ∷ ls, t, rw (e, f) refl, i, k)
  perform_statement-IsAlive (opts n) cs ls s h (lt, k) =
      let (a, e, r) = get_elem?-drop n ls lt in
      let (t, f, i) = opt_func-Gives n a ls s h e in (ls, t, rw (e, f) refl, i, k)
  perform_statement-IsAlive (defaults n) cs ls s h (lt, k) =
      let (a, e, r) = get_elem?-drop n ls lt in
      let (t, f, i) = show_local n a ls s h e in (ls, t, rw (e, f) refl, i, k)
  perform_statement-IsAlive (moves_new n) cs ls s h (lt, k) =
      let (a, e, r) = get_elem?-drop n ls lt in
      let (t, f, i) = move_local moved n a ls s h e in (s.next ∷ ls, t, rw (e, f) refl, i, k)
  perform_statement-IsAlive (opts_new x) cs ls s h k =
      let (t, f, i) = func_of_new-Gives x ls s h in (ls, t, rw f refl, i, k)
  perform_statement-IsAlive (defaults_new x) cs ls s h k =
      let (t, f, i) = func_of_new-Gives x ls s h in (ls, t, rw f refl, i, k)
  perform_statement-IsAlive (assigns m n) cs ls s h (lt, lu, k) =
      let (a, e, p) = get_elem?-drop m ls lt in
      let (b, f, q) = get_elem?-drop n ls lu in
      let (t, g, i) = copy_assign_local m n a b ls s h e f in (ls, t, rw (e, f, g) refl, i, k)
  perform_statement-IsAlive (move_assigns_to m n) cs ls s h (lt, lu, k) =
      let (a, e, p) = get_elem?-drop m ls lt in
      let (b, f, q) = get_elem?-drop n ls lu in
      let (t, g, i) = move_assign_local moved m n a b ls s h e f in (ls, t, rw (e, f, g) refl, i, k)

  pub perform_scope-IsAlive :
      (cs : List (ScopeStep A)) (ls : List ℕ) (s : Objects A)
      → IsAlive ls s
      → IsScoped (length ls) cs
      → Gives [] (perform_scope moved cs ls s)
  unfolding perform_scope
  perform_scope-IsAlive [] ls s h k = end_scope-IsAlive ls s h
  perform_scope-IsAlive (c ∷ cs) ls s h k =
      let (ms, t, e, i, l) = perform_statement-IsAlive c cs ls s h k in
      let (u, f, j) = perform_scope-IsAlive cs ms t i l in (u, rw (perform_scope, e) f, j)

  -- Whatever statements follow one another in a scope, if they name only objects that are in it,
  -- no object is used where it does not live. At the end of the scope nothing lives, and every
  -- object that was made, by whichever constructor, was destroyed once.
  pub perform_scope_destroys :
      (cs : List (ScopeStep A))
      → IsScoped 0 cs
      → (t : Objects A) × (perform_scope moved cs [] no_objects ≡ some t)
        × (t.live ≡ [])
        × ((i : ℕ) → made i t.log ≡ (if ltb i t.next then 1 else 0))
        × ((i : ℕ) → destroyed i t.log ≡ (if ltb i t.next then 1 else 0))
  perform_scope_destroys cs k =
      let start : IsAlive [] no_objects = record {
        places_at = refl;
        made_at = λ i. ground arith;
        destroyed_at = λ i. omega arith;
      } in
      let (t, e, h) = perform_scope-IsAlive cs [] no_objects start k in
      (
        t,
        e,
        places-nil t.live h.places_at,
        h.made_at,
        λ i. omega (arith, h.made_at i, h.destroyed_at i),
      )
