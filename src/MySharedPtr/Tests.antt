-- ===== src/MySharedPtr/Tests.antt =====
-- Programs with `MySharedPtr`s, run.
use cpp_freshman.Prelude.{ℕ, true, false, none, some, List, [], ◌∷◌, ◌≡◌, refl, arith}
use cpp_freshman.MySharedPtr.{
  MySharedPtr, null, release, make, share, State, Statement, declare_null, declare_new,
  declare_copy, declare_move, assign_move, leave, Result, fine, undefined, wrong, perform,
  perform_all, initial, delete_object, delete_count,
}
use cpp_freshman.MySharedPtr.Owned.{Owns}
use cpp_freshman.MySharedPtr.Programs.{
  IsSafe, all_moves, initial-IsOwned, perform_all-IsSafe, perform_all_no_leak,
}
use cpp_freshman.MySharedPtr.Copies.{copy_twice_undefined}

-- Two objects; the first goes from variable 0 to 2 and is deleted when 2 takes the second.
abbrev moves : List Statement
moves =
    declare_new 0
    ∷ declare_new 1
    ∷ declare_move 2 0
    ∷ assign_move 2 1
    ∷ assign_move 2 2
    ∷ leave 0
    ∷ leave 1
    ∷ leave 2
    ∷ []

-- The program of `main`: its copy is not counted, and the second end of scope goes wrong.
abbrev main_program : List Statement
main_program = declare_new 0 ∷ declare_copy 1 0 ∷ leave 1 ∷ leave 0 ∷ []

main_program-perform_all : perform_all main_program initial ≡ undefined
unfolding perform_all perform initial make share release delete_object delete_count
main_program-perform_all = refl

moves-all_moves : all_moves moves ≡ true
unfolding all_moves
moves-all_moves = refl

perform_all-IsSafe_example : IsSafe (perform_all moves initial)
perform_all-IsSafe_example = perform_all-IsSafe moves initial moves-all_moves initial-IsOwned

abbrev one_move : List Statement
one_move = declare_new 0 ∷ declare_move 1 0 ∷ leave 0 ∷ leave 1 ∷ []

abbrev state_of : Result → State
state_of (fine s) = s
state_of undefined = initial
state_of wrong = initial

abbrev after_one_move : State
after_one_move = state_of (perform_all one_move initial)

one_move-all_moves : all_moves one_move ≡ true
unfolding all_moves
one_move-all_moves = refl

one_move-perform_all : perform_all one_move initial ≡ fine after_one_move
unfolding perform_all perform initial make share release delete_object delete_count
one_move-perform_all = refl

one_move-vars : (x : ℕ) → after_one_move.vars x ≡ none
unfolding perform_all perform initial make share release delete_object delete_count
one_move-vars x = ground arith

perform_all_no_leak_example : after_one_move.heap.object 1 ≡ false
perform_all_no_leak_example =
    perform_all_no_leak one_move after_one_move one_move-all_moves one_move-perform_all
      one_move-vars 1

-- Variable 0 owns an object, and variable 1 is null.
abbrev owner : State
owner = state_of (perform_all (declare_new 0 ∷ declare_null 1 ∷ []) initial)

abbrev owned : MySharedPtr
owned = record { ptr = 1; used_count = 2 }

owner-vars : owner.vars 0 ≡ some owned
unfolding perform_all perform initial make
owner-vars = refl

owned-Owns : Owns owner.heap owned
unfolding perform_all perform initial make
owned-Owns = record { positive = ground arith; behind = refl; alive = refl; counted = refl }

owner-null : owner.vars 1 ≡ some null
unfolding perform_all perform initial make
owner-null = refl

owner-none : owner.vars 2 ≡ none
unfolding perform_all perform initial make
owner-none = refl

copy_twice_undefined_example :
    perform_all (declare_copy 2 0 ∷ leave 2 ∷ leave 0 ∷ []) owner ≡ undefined
copy_twice_undefined_example = copy_twice_undefined owner 2 0 owned owner-none owner-vars owned-Owns
