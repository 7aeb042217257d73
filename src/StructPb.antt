-- ===== src/StructPb.antt =====
-- example/performance_units/struct_pb/example.cpp: the same test cases as structures and as
-- messages. The message classes are generated from proto/cl_test.proto and are a parameter.
pub mod Messages
pub mod Values
pub mod Loop
pub mod Rounds
pub mod Tests
use Prim.Native.Nat.{zero, suc}
use cpp_freshman.Prelude.{
  ℕ, ◌+◌, ◌-◌, Bool, true, false, Option, none, some, List, [], ◌∷◌, ◌++◌, ◌≡◌, Bytes, ascii, suc,
  length, get_elem?,
}

pub data SChangeType : Type 0 where
  fluctuate smooth : SChangeType

-- The number of an enumerator.
abbrev pub enum_value : SChangeType → ℕ
enum_value fluctuate = 1
enum_value smooth = 2

pub record Stage : Type 0 where
  pub lower_bound : ℕ
  pub upper_bound : ℕ
  pub duration_sec : ℕ
  pub type : SChangeType

pub record STestCase : Type 0 where
  pub case_name : Bytes
  pub max_concurrency : Bytes
  pub qps_stage_list : List Stage
  pub latency_stage_list : List Stage

pub record STestCaseSet : Type 0 where
  pub test_case : List STestCase

abbrev pub new_test_case : STestCase
new_test_case = record {
  case_name = [];
  max_concurrency = [];
  qps_stage_list = [];
  latency_stage_list = [];
}

-- `emplace_back` on the two lists of a test case, and on a set.
abbrev pub emplace_qps : Stage → STestCase → STestCase
emplace_qps s c = record c { qps_stage_list = c.qps_stage_list ++ s ∷ [] }

abbrev pub emplace_latency : Stage → STestCase → STestCase
emplace_latency s c = record c { latency_stage_list = c.latency_stage_list ++ s ∷ [] }

-- The members of a `Stage` are not initialised where it is declared: `junk` is what they hold. The
-- result is the local set at the end of the function.
unfoldable pub set_struct_value : Stage → ℕ → STestCaseSet
set_struct_value junk x =
    let test_case = record new_test_case {
      case_name = ascii "Test Case 1";
      max_concurrency = ascii "100";
    } in
    let qps_stage_1 = record junk {
      lower_bound = 100;
      upper_bound = 200;
      duration_sec = 30;
      type = fluctuate;
    } in
    let test_case = emplace_qps qps_stage_1 test_case in
    let qps_stage_2 = record junk {
      lower_bound = 200;
      upper_bound = 300;
      duration_sec = 40;
      type = smooth;
    } in
    let test_case = emplace_qps qps_stage_2 test_case in
    let latency_stage_1 = record junk {
      lower_bound = 10;
      upper_bound = 20;
      duration_sec = 15;
      type = fluctuate;
    } in
    let test_case = emplace_latency latency_stage_1 test_case in
    record { test_case = test_case ∷ [] }

-- What a reader takes out of a stage and of a test case.
pub record StageValues : Type 0 where
  pub lower : ℕ
  pub upper : ℕ
  pub second : ℕ
  pub type_value : ℕ

pub record CaseValues : Type 0 where
  pub name : Bytes
  pub concurrency : Bytes
  pub qps_stages : List StageValues
  pub latency_stages : List StageValues

abbrev pub stage_values : Stage → StageValues
stage_values s = record {
  lower = s.lower_bound;
  upper = s.upper_bound;
  second = s.duration_sec;
  type_value = enum_value s.type;
}

-- A loop of `get_struct_value` from `i` on, with `left` rounds to go; `list[i]` is undefined from
-- the size on.
unfoldable pub read_stages : List Stage → ℕ → ℕ → Option (List StageValues)
read_stages ss i zero = some []
read_stages ss i (suc left) = elim (get_elem? ss i) [
  | none ↦ none
  | some s ↦ elim (read_stages ss (i + 1) left) [
    | none ↦ none
    | some vs ↦ some (stage_values s ∷ vs)
  ]
]

-- One test case: both loops run from 0 to the size of their list.
unfoldable pub read_test_case : STestCase → Option CaseValues
unfolding read_stages
read_test_case c = elim (read_stages c.qps_stage_list 0 (length c.qps_stage_list)) [
  | none ↦ none
  | some qs ↦ elim (read_stages c.latency_stage_list 0 (length c.latency_stage_list)) [
    | none ↦ none
    | some ls ↦ some record {
      name = c.case_name;
      concurrency = c.max_concurrency;
      qps_stages = qs;
      latency_stages = ls;
    }
  ]
]

unfoldable pub read_test_cases : List STestCase → Option (List CaseValues)
unfolding read_test_case
read_test_cases [] = some []
read_test_cases (c ∷ cs) = elim (read_test_case c) [
  | none ↦ none
  | some v ↦ elim (read_test_cases cs) [ none ↦ none | some vs ↦ some (v ∷ vs) ]
]

unfoldable pub get_struct_value : STestCaseSet → Option (List CaseValues)
unfolding read_test_cases
get_struct_value test_case_set = read_test_cases test_case_set.test_case
