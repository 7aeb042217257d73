-- ===== src/StructPb/Values.antt =====
-- The values in the structures and in the messages, and what the readers take from them.
use cpp_freshman.Prelude.{
  ℕ, zero, suc, ◌+◌, some, List, [], ◌∷◌, ◌≡◌, refl, map, arith, length, drop, get_elem?-drop,
  drop_all,
}
use cpp_freshman.StructPb.{
  Stage, STestCase, STestCaseSet, stage_values, CaseValues, read_stages, read_test_case,
  read_test_cases, get_struct_value, set_struct_value,
}
use cpp_freshman.StructPb.Messages.{
  Messages, set_pb_value, get_pb_value, read_case_message, set_test_case, set_qps_stage_1,
  set_qps_stage_2, set_latency_stage_1,
}

abbrev pub case_values : STestCase → CaseValues
case_values c = record {
  name = c.case_name;
  concurrency = c.max_concurrency;
  qps_stages = map stage_values c.qps_stage_list;
  latency_stages = map stage_values c.latency_stage_list;
}

-- From an index inside the list, the rounds that are left read the rest.
pub read_stages-drop :
    (ss : List Stage) (i left : ℕ)
    → i + left ≡ length ss
    → read_stages ss i left ≡ some (map stage_values (drop i ss))
unfolding read_stages
read_stages-drop ss i zero e = let f : i ≡ length ss = omega arith in rw (f, drop_all ss) refl
read_stages-drop ss i (suc left) e =
    let (s, at, rest) = get_elem?-drop i ss (omega arith) in
    rw (read_stages, at, read_stages-drop ss (i + 1) left (omega arith), rest) refl

pub read_test_cases-values : (cs : List STestCase) → read_test_cases cs ≡ some (map case_values cs)
unfolding read_test_cases read_test_case
read_test_cases-values [] = refl
read_test_cases-values (c ∷ cs) =
    rw
      (
        read_test_cases,
        read_test_case,
        read_stages-drop c.qps_stage_list 0 (length c.qps_stage_list) (omega arith),
        read_stages-drop c.latency_stage_list 0 (length c.latency_stage_list) (omega arith),
        read_test_cases-values cs,
      )
      refl

-- `get_struct_value` indexes its lists inside their bounds only, and it reads every member of every
-- stage, in order.
pub get_struct_value-values :
    (s : STestCaseSet) → get_struct_value s ≡ some (map case_values s.test_case)
unfolding get_struct_value
get_struct_value-values s = read_test_cases-values s.test_case

-- What `get_pb_value` reads from the messages that `set_pb_value` makes is what `get_struct_value`
-- reads from the structures that `set_struct_value` makes, whatever their members held before.
pub get_pb_value-set_pb_value :
    (pb : Messages) (junk : Stage) (x : ℕ)
    → get_struct_value (set_struct_value junk x) ≡ some (get_pb_value pb (set_pb_value pb x))
unfolding get_pb_value set_pb_value read_case_message set_test_case set_struct_value set_qps_stage_1
    set_qps_stage_2 set_latency_stage_1
get_pb_value-set_pb_value pb junk x = simp (
  get_struct_value-values, pb.test_case-add_test_case, pb.test_case-new_set, pb.stages-add_stage,
  pb.stages-set_text, pb.stages-new_case, pb.text-add_stage, pb.text-set_text, pb.number-set_number,
)
