-- ===== src/UnitTest.antt =====
-- `UnitTestClass` and the functions on it of example/googletest/test_class.h, which show when an
-- object is made, copied, moved and destroyed, and their calls in test_optional.cpp.
pub mod Lifetimes
pub mod Calls
pub mod Scopes
pub mod Tests
use Prim.Native.Nat.{zero, suc}
use cpp_freshman.Prelude.{
  ℕ, ◌+◌, Option, none, some, List, [], ◌∷◌, ◌==◌, if◌then◌else◌, get_elem?, Bytes, ascii,
}

-- What is printed, by an object or of its data.
pub data Trace (A : Type 0) : Type 0 where
  construct copy_construct move_construct copy_assigns move_assigns destruct : ℕ → Trace A
  shows : A → Trace A

-- An object, under the number of its place in memory, which no other object ever has.
pub record UnitTestClass (A : Type 0) : Type 0 where
  pub place : ℕ
  pub data_at : A

-- The objects that live, the newest first, and what was printed, the newest first.
pub record Objects (A : Type 0) : Type 0 where
  pub next : ℕ
  pub live : List (UnitTestClass A)
  pub log : List (Trace A)

module _ {A : Type 0} where
  abbrev pub no_objects : Objects A
  no_objects = record { next = 0; live = []; log = [] }

  abbrev pub find_object : ℕ → List (UnitTestClass A) → Option A
  find_object a [] = none
  find_object a (u ∷ us) = if u.place == a then some u.data_at else find_object a us

  abbrev pub drop_object : ℕ → List (UnitTestClass A) → List (UnitTestClass A)
  drop_object a [] = []
  drop_object a (u ∷ us) = if u.place == a then us else u ∷ drop_object a us

  abbrev pub set_object : ℕ → A → List (UnitTestClass A) → List (UnitTestClass A)
  set_object a x [] = []
  set_object a x (u ∷ us) =
      if u.place == a then record u { data_at = x } ∷ us else u ∷ set_object a x us

  -- A constructor: the new object, and what it prints.
  abbrev pub new_object : (ℕ → Trace A) → A → Objects A → Objects A
  new_object event x s = record {
    next = s.next + 1;
    live = record { place = s.next; data_at = x } ∷ s.live;
    log = event s.next ∷ s.log;
  }

  abbrev pub show : A → Objects A → Objects A
  show x s = record s { log = shows x ∷ s.log }

  unfoldable pub construct_object : A → Objects A → Objects A
  construct_object x s = new_object construct x s

  -- `none` is a use of an object that does not live.
  unfoldable pub destroy_object : ℕ → Objects A → Option (Objects A)
  destroy_object a s = elim (find_object a s.live) [
    | none ↦ none
    | some x ↦ some (record s { live = drop_object a s.live; log = destruct a ∷ s.log })
  ]

  unfoldable pub copy_object : ℕ → Objects A → Option (Objects A)
  copy_object a s = elim (find_object a s.live) [
    | none ↦ none
    | some x ↦ some (new_object copy_construct x s)
  ]

  unfoldable pub copy_assign_object : ℕ → ℕ → Objects A → Option (Objects A)
  copy_assign_object a b s = elim (find_object b s.live) [
    | none ↦ none
    | some x ↦ elim (find_object a s.live) [
      | none ↦ none
      | some y ↦ some (record s { live = set_object a x s.live; log = copy_assigns a ∷ s.log })
    ]
  ]

  -- What a move leaves of the data is up to the data.
  module _ (moved : A → A) where
    unfoldable pub move_object : ℕ → Objects A → Option (Objects A)
    move_object a s = elim (find_object a s.live) [
      | none ↦ none
      | some x ↦
          some (new_object move_construct x (record s { live = set_object a (moved x) s.live }))
    ]

    unfoldable pub move_assign_object : ℕ → ℕ → Objects A → Option (Objects A)
    move_assign_object a b s = elim (find_object b s.live) [
      | none ↦ none
      | some x ↦ elim (find_object a s.live) [
        | none ↦ none
        | some y ↦ some (record s {
          live = set_object a x (set_object b (moved x) s.live);
          log = move_assigns a ∷ s.log;
        })
      ]
    ]

  -- The result of `get_copy_obj` is made in the place of the caller's object: compilers elide the
  -- copy of the local object that is returned, as its comment says.
  unfoldable pub get_copy_obj : A → Objects A → Objects A
  unfolding construct_object
  get_copy_obj value s = construct_object value s

  -- `copy_obj(a)`: the parameter is a copy, which ends with the call.
  unfoldable pub copy_obj : ℕ → Objects A → Option (Objects A)
  unfolding copy_object destroy_object
  copy_obj a s = elim (copy_object a s) [ none ↦ none | some t ↦ destroy_object s.next t ]

  -- The body of `OptFunc` and of `DefaultFunc`.
  unfoldable pub show_object : ℕ → Objects A → Option (Objects A)
  show_object a s = elim (find_object a s.live) [ none ↦ none | some x ↦ some (show x s) ]

  -- `OptFunc(a)`, which copies into the optional, and `DefaultFunc(a)`, which binds a reference.
  unfoldable pub opt_func : ℕ → Objects A → Option (Objects A)
  unfolding copy_object destroy_object show_object
  opt_func a s = elim (copy_object a s) [
    | none ↦ none
    | some t ↦ elim (show_object s.next t) [ none ↦ none | some u ↦ destroy_object s.next u ]
  ]

  unfoldable pub default_func : ℕ → Objects A → Option (Objects A)
  unfolding show_object
  default_func a s = show_object a s

  -- Either function on a new object, which ends with the call.
  unfoldable pub func_of_new : A → Objects A → Option (Objects A)
  unfolding construct_object destroy_object show_object
  func_of_new x s = elim (show_object s.next (construct_object x s)) [
    | none ↦ none
    | some u ↦ destroy_object s.next u
  ]

-- A statement in a scope; a number counts the objects of the scope back from the newest.
pub data ScopeStep (A : Type 0) : Type 0 where
  gets : A → ScopeStep A
  copies copies_new opts defaults moves_new : ℕ → ScopeStep A
  opts_new defaults_new : A → ScopeStep A
  assigns move_assigns_to : ℕ → ℕ → ScopeStep A

module _ {A : Type 0} (moved : A → A) where
  -- What a statement does with objects, given those of the scope, and whether one more is in scope.
  abbrev pub with_new : List ℕ → ℕ → Option (Objects A) → Option (List ℕ × Objects A)
  with_new locals a none = none
  with_new locals a (some s) = some (a ∷ locals, s)

  abbrev pub with_same : List ℕ → Option (Objects A) → Option (List ℕ × Objects A)
  with_same locals none = none
  with_same locals (some s) = some (locals, s)

  abbrev pub at_local : Option ℕ → (ℕ → Option (List ℕ × Objects A)) → Option (List ℕ × Objects A)
  at_local none f = none
  at_local (some a) f = f a

  unfoldable pub perform_statement : ScopeStep A → List ℕ → Objects A → Option (List ℕ × Objects A)
  unfolding get_copy_obj copy_obj copy_object opt_func default_func func_of_new move_object
      copy_assign_object move_assign_object
  perform_statement (gets x) ls s = with_new ls s.next (some (get_copy_obj x s))
  perform_statement (copies n) ls s = at_local (get_elem? ls n) (λ a. with_same ls (copy_obj a s))
  perform_statement (copies_new n) ls s =
      at_local (get_elem? ls n) (λ a. with_new ls s.next (copy_object a s))
  perform_statement (moves_new n) ls s =
      at_local (get_elem? ls n) (λ a. with_new ls s.next (move_object moved a s))
  perform_statement (opts n) ls s = at_local (get_elem? ls n) (λ a. with_same ls (opt_func a s))
  perform_statement (defaults n) ls s =
      at_local (get_elem? ls n) (λ a. with_same ls (default_func a s))
  perform_statement (opts_new x) ls s = with_same ls (func_of_new x s)
  perform_statement (defaults_new x) ls s = with_same ls (func_of_new x s)
  perform_statement (assigns m n) ls s =
      at_local (get_elem? ls m)
        (λ a. at_local (get_elem? ls n) (λ b. with_same ls (copy_assign_object a b s)))
  perform_statement (move_assigns_to m n) ls s =
      at_local (get_elem? ls m)
        (λ a. at_local (get_elem? ls n) (λ b. with_same ls (move_assign_object moved a b s)))

  -- The end of the scope, which destroys its objects from the newest on.
  unfoldable pub end_scope : List ℕ → Objects A → Option (Objects A)
  unfolding destroy_object
  end_scope [] s = some s
  end_scope (a ∷ ls) s = elim (destroy_object a s) [ none ↦ none | some t ↦ end_scope ls t ]

  unfoldable pub perform_scope : List (ScopeStep A) → List ℕ → Objects A → Option (Objects A)
  unfolding perform_statement end_scope
  perform_scope [] ls s = end_scope ls s
  perform_scope (c ∷ cs) ls s = elim (perform_statement c ls s) [
    | none ↦ none
    | some r ↦ perform_scope cs r.0 r.1
  ]

-- `optional_opt` of test_optional.cpp.
abbrev pub optional_opt : List (ScopeStep Bytes)
optional_opt =
    gets (ascii "unit_test")
    ∷ opts 0
    ∷ opts_new (ascii "unit_test1")
    ∷ defaults 0
    ∷ defaults_new (ascii "unit_test2")
    ∷ []
