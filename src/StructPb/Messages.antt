-- ===== src/StructPb/Messages.antt =====
-- The other half of example/performance_units/struct_pb/example.cpp: the messages.
use cpp_freshman.Prelude.{
  ℕ, Bool, true, false, List, [], ◌∷◌, ◌++◌, ◌≡◌, Bytes, ascii, if◌then◌else◌, map,
}
use cpp_freshman.StructPb.{StageValues, CaseValues}

-- The fields of the messages, and the enumerators of `ChangeType`, by the names of the schema.
pub data StageField : Type 0 where
  lower_bound upper_bound duration_sec type : StageField

pub data TextField : Type 0 where
  case_name max_concurrency : TextField

pub data ListField : Type 0 where
  qps_stage_list latency_stage_list : ListField

pub data ChangeType : Type 0 where
  unknow fluctuate smooth : ChangeType

abbrev pub enum_number : ChangeType → ℕ
enum_number unknow = 0
enum_number fluctuate = 1
enum_number smooth = 2

abbrev pub same_stage_field : StageField → StageField → Bool
same_stage_field lower_bound lower_bound = true
same_stage_field upper_bound upper_bound = true
same_stage_field duration_sec duration_sec = true
same_stage_field type type = true
same_stage_field _ _ = false

abbrev pub same_text_field : TextField → TextField → Bool
same_text_field case_name case_name = true
same_text_field max_concurrency max_concurrency = true
same_text_field _ _ = false

abbrev pub same_list_field : ListField → ListField → Bool
same_list_field qps_stage_list qps_stage_list = true
same_list_field latency_stage_list latency_stage_list = true
same_list_field _ _ = false

-- The generated classes: `set_…`, the readers and `add_…`, whose argument is what the caller does
-- to the new element through the pointer that comes back. A reader sees the last write to its field
-- and no other, and a new message has empty lists.
pub record Messages : Type 1 where
  pub StageMessage : Type 0
  pub new_stage : StageMessage
  pub set_number : StageField → ℕ → StageMessage → StageMessage
  pub number : StageField → StageMessage → ℕ
  pub number-set_number :
      (f g : StageField)
      → (n : ℕ) → (m : StageMessage)
      → number f (set_number g n m) ≡ (if same_stage_field f g then n else number f m)
  pub CaseMessage : Type 0
  pub new_case : CaseMessage
  pub set_text : TextField → Bytes → CaseMessage → CaseMessage
  pub add_stage : ListField → (StageMessage → StageMessage) → CaseMessage → CaseMessage
  pub text : TextField → CaseMessage → Bytes
  pub stages : ListField → CaseMessage → List StageMessage
  pub stages-new_case : (k : ListField) → stages k new_case ≡ []
  pub text-set_text :
      (f g : TextField)
      → (t : Bytes) → (m : CaseMessage)
      → text f (set_text g t m) ≡ (if same_text_field f g then t else text f m)
  pub text-add_stage :
      (f : TextField)
      → (k : ListField) → (change : StageMessage → StageMessage) → (m : CaseMessage)
      → text f (add_stage k change m) ≡ text f m
  pub stages-set_text :
      (k : ListField)
      → (g : TextField) → (t : Bytes) → (m : CaseMessage) → stages k (set_text g t m) ≡ stages k m
  pub stages-add_stage :
      (k l : ListField)
      → (change : StageMessage → StageMessage) → (m : CaseMessage)
      → stages k (add_stage l change m)
        ≡ (if same_list_field k l then stages k m ++ change new_stage ∷ [] else stages k m)
  pub SetMessage : Type 0
  pub new_set : SetMessage
  pub add_test_case : (CaseMessage → CaseMessage) → SetMessage → SetMessage
  pub test_case : SetMessage → List CaseMessage
  pub test_case-new_set : test_case new_set ≡ []
  pub test_case-add_test_case :
      (change : CaseMessage → CaseMessage)
      → (m : SetMessage) → test_case (add_test_case change m) ≡ test_case m ++ change new_case ∷ []

module _ (pb : Messages) where
  unfoldable pub set_qps_stage_1 : pb.StageMessage → pb.StageMessage
  set_qps_stage_1 s =
      let s = pb.set_number lower_bound 100 s in
      let s = pb.set_number upper_bound 200 s in
      let s = pb.set_number duration_sec 30 s in pb.set_number type (enum_number fluctuate) s

  unfoldable pub set_qps_stage_2 : pb.StageMessage → pb.StageMessage
  set_qps_stage_2 s =
      let s = pb.set_number lower_bound 200 s in
      let s = pb.set_number upper_bound 300 s in
      let s = pb.set_number duration_sec 40 s in pb.set_number type (enum_number smooth) s

  unfoldable pub set_latency_stage_1 : pb.StageMessage → pb.StageMessage
  set_latency_stage_1 s =
      let s = pb.set_number lower_bound 10 s in
      let s = pb.set_number upper_bound 20 s in
      let s = pb.set_number duration_sec 15 s in pb.set_number type (enum_number fluctuate) s

  unfoldable pub set_test_case : pb.CaseMessage → pb.CaseMessage
  unfolding set_qps_stage_1 set_qps_stage_2 set_latency_stage_1
  set_test_case c =
      let c = pb.set_text case_name (ascii "Test Case 1") c in
      let c = pb.set_text max_concurrency (ascii "100") c in
      let c = pb.add_stage qps_stage_list set_qps_stage_1 c in
      let c = pb.add_stage qps_stage_list set_qps_stage_2 c in
      pb.add_stage latency_stage_list set_latency_stage_1 c

  unfoldable pub set_pb_value : ℕ → pb.SetMessage
  unfolding set_test_case
  set_pb_value x = pb.add_test_case set_test_case pb.new_set

  abbrev pub message_values : pb.StageMessage → StageValues
  message_values m = record {
    lower = pb.number lower_bound m;
    upper = pb.number upper_bound m;
    second = pb.number duration_sec m;
    type_value = pb.number type m;
  }

  -- One round of the outer loop of `get_pb_value`; it also prints one line for each test case.
  unfoldable pub read_case_message : pb.CaseMessage → CaseValues
  read_case_message m = record {
    name = pb.text case_name m;
    concurrency = pb.text max_concurrency m;
    qps_stages = map message_values (pb.stages qps_stage_list m);
    latency_stages = map message_values (pb.stages latency_stage_list m);
  }

  unfoldable pub get_pb_value : pb.SetMessage → List CaseValues
  unfolding read_case_message
  get_pb_value m = map read_case_message (pb.test_case m)
