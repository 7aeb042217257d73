-- ===== src/UnitTest/Tests.antt =====
-- Runs of scopes.
use cpp_freshman.Prelude.{
  ℕ, some, List, [], ◌∷◌, ◌≡◌, refl, arith, Bytes, ascii, if◌then◌else◌, ltb,
}
use cpp_freshman.UnitTest.{
  construct, copy_construct, destruct, shows, Objects, no_objects, ScopeStep, gets, copies_new,
  moves_new, move_assigns_to, optional_opt, perform_scope,
}
use cpp_freshman.UnitTest.Lifetimes.{made, destroyed}
use cpp_freshman.UnitTest.Scopes.{perform_scope_destroys}

abbrev moved_text : Bytes → Bytes
moved_text s = []

-- The copy for the optional is the only one.
optional_opt_log :
    perform_scope moved_text optional_opt [] no_objects
    ≡ some (record {
      next = 4;
      live = [];
      log =
          destruct 0
          ∷ destruct 3
          ∷ shows (ascii "unit_test2")
          ∷ construct 3
          ∷ shows (ascii "unit_test")
          ∷ destruct 2
          ∷ shows (ascii "unit_test1")
          ∷ construct 2
          ∷ destruct 1
          ∷ shows (ascii "unit_test")
          ∷ copy_construct 1
          ∷ construct 0
          ∷ [];
    })
unfolding perform_scope
optional_opt_log = refl

abbrev moves : List (ScopeStep Bytes)
moves = gets (ascii "a") ∷ copies_new 0 ∷ moves_new 0 ∷ move_assigns_to 0 2 ∷ []

perform_scope_destroys_example :
    (t : Objects Bytes) × (perform_scope moved_text moves [] no_objects ≡ some t)
    × (t.live ≡ [])
    × ((i : ℕ) → made i t.log ≡ (if ltb i t.next then 1 else 0))
    × ((i : ℕ) → destroyed i t.log ≡ (if ltb i t.next then 1 else 0))
perform_scope_destroys_example =
    perform_scope_destroys moved_text moves
      (omega arith, (omega arith, (omega arith, omega arith, tt)))
