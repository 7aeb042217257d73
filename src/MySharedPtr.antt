-- ===== src/MySharedPtr.antt =====
-- example/performance_units/my_shared_ptr.cpp: `MySharedPtr` over a heap in which a null pointer that
-- is followed, a use after a delete and a second delete are undefined behaviour.
pub mod Owned
pub mod Release
pub mod Programs
pub mod Copies
pub mod Tests
use cpp_freshman.Prelude.{
  ℕ, suc, ◌+◌, ◌%◌, Bool, true, false, Option, none, some, List, [], ◌∷◌, ◌==◌, if◌then◌else◌,
}

-- Which addresses hold an object of type `T`, and what the counts hold. The address 0 is `nullptr`,
-- and an address is handed out once.
pub record Heap : Type 0 where
  pub object : ℕ → Bool
  pub count : ℕ → Option ℕ
  pub unused : ℕ

pub record MySharedPtr : Type 0 where
  pub ptr : ℕ
  pub used_count : ℕ

abbrev pub null : MySharedPtr
null = record { ptr = 0; used_count = 0 }

abbrev pub set : {A : Type 0} → (ℕ → A) → ℕ → A → ℕ → A
set f a x b = if b == a then x else f b

-- `delete ptr`, which does nothing at a null pointer, and `delete used_count`.
unfoldable pub delete_object : Heap → ℕ → Option Heap
delete_object h p =
    if p == 0
    then some h
    else if h.object p
    then some (record h { object = set h.object p false })
    else none

unfoldable pub delete_count : Heap → ℕ → Option Heap
delete_count h c = elim (h.count c) [
  | none ↦ none
  | some n ↦ some (record h { count = set h.count c none })
]

-- The value of `--(*used_count)` on an `int` of 32 bits.
abbrev pub decrement : ℕ → ℕ
decrement n = (n + 0xffffffff) % 0x100000000

-- `release`; `none` is undefined behaviour.
unfoldable pub release : Heap → MySharedPtr → Option Heap
unfolding delete_object delete_count
release h s = elim (h.count s.used_count) [
  | none ↦ if s.used_count == 0 then some h else none
  | some n ↦
      let written = record h { count = set h.count s.used_count (some (decrement n)) } in
      let deleted : Option Heap = elim (delete_object written s.ptr) [
        | none ↦ none
        | some h' ↦ delete_count h' s.used_count
      ] in
      if s.used_count == 0 then some h else if decrement n == 0 then deleted else some written
]

-- `new T()` and the constructor from a pointer, which makes a count of 1.
unfoldable pub make : Heap → Heap × MySharedPtr
make h = (
  record h {
    object = set h.object h.unused true;
    count = set h.count (suc h.unused) (some 1);
    unused = suc (suc h.unused);
  },
  record { ptr = h.unused; used_count = suc h.unused },
)

-- What both copies do with the fields that they have taken from `other`: the count is incremented
-- where the pointer to it is null.
unfoldable pub share : Heap → MySharedPtr → Option (Heap × MySharedPtr)
share h other = if other.used_count == 0 then none else some (h, other)

-- `get_count`; `none` is undefined behaviour.
unfoldable pub get_count : Heap → MySharedPtr → Option ℕ
get_count h s = if s.used_count == 0 then some 0 else h.count s.used_count

-- The variables of a program; `none` is a variable out of its scope.
pub record State : Type 0 where
  pub heap : Heap
  pub vars : ℕ → Option MySharedPtr

-- The declarations, assignments and ends of scope of variables.
pub data Statement : Type 0 where
  declare_null : ℕ → Statement
  declare_new : ℕ → Statement
  declare_copy : ℕ → ℕ → Statement
  declare_move : ℕ → ℕ → Statement
  assign_copy : ℕ → ℕ → Statement
  assign_move : ℕ → ℕ → Statement
  leave : ℕ → Statement

-- `wrong` is no program: a variable is used out of its scope, or declared in it.
pub data Result : Type 0 where
  fine : State → Result
  undefined : Result
  wrong : Result

abbrev pub bind_heap : State → ℕ → Option MySharedPtr → Option Heap → Result
bind_heap s x v none = undefined
bind_heap s x v (some h) = fine (record { heap = h; vars = set s.vars x v })

abbrev pub bind_share : State → ℕ → Option (Heap × MySharedPtr) → Result
bind_share s x none = undefined
bind_share s x (some (h, v)) = fine (record { heap = h; vars = set s.vars x (some v) })

-- A variable that is not declared yet.
abbrev pub in_new : State → ℕ → Result → Result
in_new s x r = elim (s.vars x) [ none ↦ r | some v ↦ wrong ]

abbrev pub with_var : State → ℕ → (MySharedPtr → Result) → Result
with_var s x f = elim (s.vars x) [ none ↦ wrong | some v ↦ f v ]

-- The copy assignment and the move assignment between two different variables.
unfoldable pub copy_assign : State → ℕ → MySharedPtr → MySharedPtr → Result
unfolding release share
copy_assign s x this other = elim (release s.heap this) [
  | none ↦ undefined
  | some h ↦ bind_share s x (share h other)
]

unfoldable pub move_assign : State → ℕ → ℕ → MySharedPtr → MySharedPtr → Result
unfolding release
move_assign s x y this other = elim (release s.heap this) [
  | none ↦ undefined
  | some h ↦ fine (record { heap = h; vars = set (set s.vars x (some other)) y (some null) })
]

unfoldable pub perform : State → Statement → Result
unfolding release make share copy_assign move_assign
perform s (declare_null x) =
    in_new s x (fine (record { heap = s.heap; vars = set s.vars x (some null) }))
perform s (declare_new x) =
    let (h, v) = make s.heap in
    in_new s x (fine (record { heap = h; vars = set s.vars x (some v) }))
perform s (declare_copy x y) =
    in_new s x (with_var s y (λ other. bind_share s x (share s.heap other)))
perform s (declare_move x y) = in_new s x (
    with_var s y (λ other.
      fine (record { heap = s.heap; vars = set (set s.vars x (some other)) y (some null) })))
perform s (assign_copy x y) =
    with_var s x
      (λ this. with_var s y (λ other. if x == y then fine s else copy_assign s x this other))
perform s (assign_move x y) =
    with_var s x
      (λ this. with_var s y (λ other. if x == y then fine s else move_assign s x y this other))
perform s (leave x) = with_var s x (λ this. bind_heap s x none (release s.heap this))

abbrev pub bind_result : Result → (State → Result) → Result
bind_result (fine s) f = f s
bind_result undefined f = undefined
bind_result wrong f = wrong

unfoldable pub perform_all : List Statement → State → Result
unfolding perform
perform_all [] s = fine s
perform_all (c ∷ cs) s = bind_result (perform s c) (λ s'. perform_all cs s')

unfoldable pub initial : State
initial = record {
  heap = record { object = (λ a. false); count = (λ a. none); unused = 1 };
  vars = (λ x. none);
}
