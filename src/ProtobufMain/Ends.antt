-- ===== src/ProtobufMain/Ends.antt =====
-- The end of `main` of example/protobuf/main.cpp, and its two macros.
use cpp_freshman.Prelude.{
  ℕ, ◌^◌, ◌<◌, none, some, List, [], ◌∷◌, ◌≡◌, refl, Bytes, ascii, same_text,
}
use cpp_freshman.CacheLine.{Cells, Turn}
use cpp_freshman.CacheLine.Runs.{IsFair, sum_threads_total}
use cpp_freshman.Cassandra.{to_string}
use cpp_freshman.ProtobufMain.{
  Person, assign_data, assign_status, proto_to_struct, response, then_undefined, test_reflection,
  person_line, protobuf_main, new_person,
}

-- The two macros, had they been expanded for the field that each is for, fill a person from a
-- response, whatever it held; `ProtoToStruct` leaves it, and a new person then has no status to
-- print.
pub assign_status-assign_data :
    (d : Bytes) (n : ℕ) (p : Person)
    → (assign_status (response d n) (assign_data (response d n) p)
        ≡ record { data_field = d; status = some n })
      × (proto_to_struct (response d n) p ≡ p)
      × (person_line (proto_to_struct (response d n) new_person) ≡ none)
unfolding assign_status assign_data proto_to_struct person_line same_text
assign_status-assign_data d n p = (refl, refl, refl)

-- Over memory of 32-bit cells, whatever the order of the steps, once both threads had three turns
-- for every round and one more, `main` prints the sum 20000 and the names of two macros, and then
-- reads a number that nothing has set.
pub protobuf_main_undefined :
    (sum_at : ℕ) (m : Cells) (ts : List Turn)
    → ((x : ℕ) → m x < 2 ^ 32)
    → IsFair 10000 ts
    → protobuf_main sum_at m ts
      ≡ some (
          then_undefined (ascii "xxxxxxx:20000" ∷ ascii "YES_OR_NO(1)" ∷ ascii "YES_OR_NO(0)" ∷ []))
unfolding protobuf_main test_reflection proto_to_struct person_line to_string
protobuf_main_undefined sum_at m ts small fair =
    rw (protobuf_main, sum_threads_total sum_at 10000 m ts small fair) refl
