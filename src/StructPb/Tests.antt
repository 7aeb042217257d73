-- ===== src/StructPb/Tests.antt =====
-- Runs of the demonstration with structures and messages.
use cpp_freshman.Prelude.{
  none, ℕ, ◌*◌, ◌/◌, some, List, [], ◌∷◌, ◌++◌, ◌≡◌, refl, Bytes, if◌then◌else◌, arith,
}
use cpp_freshman.StructPb.Messages.{
  StageField, TextField, ListField, same_stage_field, same_text_field, same_list_field, Messages,
}
use cpp_freshman.StructPb.Loop.{Floating, FirstModes, Round, LoopFlags, Clock, struct_main, gets_pb}

-- Message classes as functions from their fields.
record Case : Type 0 where
  texts : TextField → Bytes
  lists : ListField → List (StageField → ℕ)

abbrev messages : Messages
messages = record {
  StageMessage = StageField → ℕ;
  new_stage = (λ f. 0);
  set_number = (λ g n m f. if same_stage_field f g then n else m f);
  number = (λ f m. m f);
  number-set_number = (λ f g n m. refl);
  CaseMessage = Case;
  new_case = record { texts = (λ f. []); lists = (λ k. []) };
  set_text = (λ g t m. record m { texts = (λ f. if same_text_field f g then t else m.texts f) });
  add_stage = (λ l change m. record m {
    lists = (λ k. if same_list_field k l then m.lists k ++ change (λ f. 0) ∷ [] else m.lists k);
  });
  text = (λ f m. m.texts f);
  stages = (λ k m. m.lists k);
  stages-new_case = (λ k. refl);
  text-set_text = (λ f g t m. refl);
  text-add_stage = (λ f k change m. refl);
  stages-set_text = (λ k g t m. refl);
  stages-add_stage = (λ k l change m. refl);
  SetMessage = List Case;
  new_set = [];
  add_test_case = (λ change m. m ++ change (record { texts = (λ f. []); lists = (λ k. []) }) ∷ []);
  test_case = (λ m. m);
  test_case-new_set = refl;
  test_case-add_test_case = (λ change m. refl);
}

-- A round that has used 2 of 5 milliseconds.
abbrev clock : Clock
clock = record { round_begin = 1000000; round_end = 3000000 }

-- Whole numbers in place of `double`.
abbrev whole : Floating ℕ
whole = record { of_int = (λ n. n); times = ◌*◌; over = ◌/◌; to_int64 = some }

abbrev flags : LoopFlags
flags = record { qps = 1000; batch = 2; concurrency = 1 }

-- The flag is 3 at first, and is set to 1 while the program runs.
abbrev started_with_3 : FirstModes
started_with_3 = record { main_1 = 3; main_2 = 3; main_3 = 3; main_4 = 3; once_1 = 3; once_2 = 3 }

abbrev round : ℕ → Round
round mode = record { clock = clock; modes = λ j. record { call_3 = mode; call_4 = mode } }

struct_main_run :
    struct_main whole started_with_3 flags ((round 3 ∷ []) ∷ [])
    ≡ some ((gets_pb ∷ gets_pb ∷ []) ∷ [])
unfolding struct_main
struct_main_run = ground arith

struct_main_wild : struct_main whole started_with_3 flags ((round 3 ∷ round 1 ∷ []) ∷ []) ≡ none
unfolding struct_main
struct_main_wild = ground arith
