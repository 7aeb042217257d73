-- ===== src/ClassTemplate/Tests.antt =====
-- Calls on a `CommonFileDict`.
use cpp_freshman.Prelude.{ℕ, ◌+◌, none, true, List, [], ◌∷◌, ◌≡◌, refl, nat_eq}
use cpp_freshman.FileDict.{find, assign}
use cpp_freshman.ClassTemplate.{
  Template, general, partial, Change, inserted, added, insert, add, get_value, is_exist, change,
  change_all,
}
use cpp_freshman.ClassTemplate.Sums.{one_key_all, get_value-change_all}

abbrev plus : ℕ → ℕ → ℕ
plus a b = a + b

abbrev calls : List (Change ℕ ℕ)
calls = added 3 10 ∷ inserted 4 1 ∷ added 3 5 ∷ inserted 3 7 ∷ added 3 2 ∷ []

calls-partial : change_all partial plus calls [] ≡ (3, 17) ∷ []
unfolding change_all change insert add find assign
calls-partial = refl

get_value-change_all_example :
    ((t : Template) → find 3 (change_all t plus calls []) ≡ one_key_all t plus 3 none calls)
    × (get_value 0 (change_all general plus calls []) 3 ≡ 9)
    × (is_exist (change_all general plus calls []) 3 ≡ true)
unfolding find
get_value-change_all_example = get_value-change_all plus 0 3 calls []
