-- ===== src/ProtobufMain.antt =====
-- example/protobuf/main.cpp: the structure that its macros define, the conversion whose body is
-- commented out, and `main`, which runs the two threads of CacheLine.antt first.
pub mod Ends
pub mod Tests
use cpp_freshman.Prelude.{
  ℕ, Option, none, some, List, [], ◌∷◌, ◌++◌, ◌==◌, if◌then◌else◌, Bytes, ascii, same_text,
}
use cpp_freshman.Cassandra.{to_string}
use cpp_freshman.CacheLine.{Cells, Turn, sum_threads}

-- `Person`. A text begins empty, and an `int32_t` that nothing has set is not initialised.
pub record Person : Type 0 where
  pub data_field : Bytes
  pub status : Option ℕ

abbrev pub new_person : Person
new_person = record { data_field = []; status = none }

-- What reflection tells of a field of a message.
pub data FieldValue : Type 0 where
  cpptype_string : Bytes → FieldValue
  cpptype_int32 : ℕ → FieldValue
  cpptype_other : FieldValue

-- A message by its fields: `FindFieldByName`, with the type and the value of what is found.
abbrev pub Message : Type 0
Message = Bytes → Option FieldValue

-- `ASSIGN_FIELD_STRING` for the field "data", and `ASSIGN_FIELD_INT32` for "status".
unfoldable pub assign_data : Message → Person → Person
assign_data proto p = elim (proto (ascii "data")) [
  | none ↦ p
  | some (cpptype_string s) ↦ record p { data_field = s }
  | some (cpptype_int32 n) ↦ p
  | some cpptype_other ↦ p
]

unfoldable pub assign_status : Message → Person → Person
assign_status proto p = elim (proto (ascii "status")) [
  | none ↦ p
  | some (cpptype_string s) ↦ p
  | some (cpptype_int32 n) ↦ record p { status = some n }
  | some cpptype_other ↦ p
]

-- `ProtoToStruct`: the lines that assign are commented out.
unfoldable pub proto_to_struct : Message → Person → Person
proto_to_struct proto p = p

-- `test::Response` with its two fields.
abbrev pub response : Bytes → ℕ → Message
response d n name =
    if same_text name (ascii "data")
    then some (cpptype_string d)
    else if same_text name (ascii "status")
    then some (cpptype_int32 n)
    else none

-- The line that is printed of a person, or undefined behaviour.
unfoldable pub person_line : Person → Option Bytes
unfolding to_string
person_line p = elim p.status [
  | none ↦ none
  | some n ↦ some (ascii "Name: " ++ (p.data_field ++ (ascii ", Age: " ++ to_string n)))
]

-- `test_reflection` as far as its output is defined: the lines, and whether it goes on.
pub data Output : Type 0 where
  prints_all : List Bytes → Output
  then_undefined : List Bytes → Output

-- `test_reflection`. `BOOST_PP_STRINGIZE` of a macro that is not defined is its own text.
unfoldable pub test_reflection : Output
unfolding person_line proto_to_struct same_text
test_reflection = elim (person_line (proto_to_struct (response (ascii "Alice") 25) new_person)) [
  | none ↦ then_undefined (ascii "YES_OR_NO(1)" ∷ ascii "YES_OR_NO(0)" ∷ [])
  | some line ↦
      prints_all
        (ascii "YES_OR_NO(1)" ∷ ascii "YES_OR_NO(0)" ∷ line ∷ ascii "Proto Name: , Age: 0" ∷ [])
]

abbrev pub after_line : Bytes → Output → Output
after_line line (prints_all lines) = prints_all (line ∷ lines)
after_line line (then_undefined lines) = then_undefined (line ∷ lines)

-- `main`; `none` waits for a thread.
unfoldable pub protobuf_main : ℕ → Cells → List Turn → Option Output
unfolding test_reflection sum_threads
protobuf_main sum_at m ts = elim (sum_threads sum_at m 10000 ts) [
  | none ↦ none
  | some sum ↦ some (after_line (ascii "xxxxxxx:" ++ to_string sum) test_reflection)
]
