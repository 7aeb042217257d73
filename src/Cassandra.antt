-- ===== src/Cassandra.antt =====
-- example/cassandra_driver/main.cpp: the bytes with which the client answers the authenticator, and
-- the objects of the driver that `main` takes and gives back.
pub mod Response
pub mod Released
pub mod Rows
pub mod Tests
use Prim.Native.Nat.{zero, suc}
use cpp_freshman.Prelude.{
  ℕ, ◌+◌, ◌/◌, ◌%◌, ◌^◌, Bool, true, false, Option, none, some, List, [], ◌∷◌, ◌++◌, Bytes, ascii,
  ltb, ◌==◌, if◌then◌else◌, get_elem?,
}

-- The two C strings: their bytes with the zero at the end.
pub record Credentials : Type 0 where
  pub password : Bytes
  pub username : Bytes

-- `strlen`; an array without a zero is read past its end, which is undefined.
unfoldable pub strlen : Bytes → Option ℕ
strlen [] = none
strlen (c ∷ cs) =
    let rest = strlen cs in
    if c == 0 then some 0 else elim rest [ none ↦ none | some n ↦ some (n + 1) ]

-- The array that `cass_authenticator_response` gives: bytes that are not written yet are `none`.
abbrev pub Buffer : Type 0
Buffer = List (Option ℕ)

abbrev pub new_buffer : ℕ → Buffer
new_buffer zero = []
new_buffer (suc n) = none ∷ new_buffer n

-- `response[i] = b`; a write outside the array is undefined.
unfoldable pub store : ℕ → ℕ → Buffer → Option Buffer
store i b [] = none
store zero b (x ∷ xs) = some (some b ∷ xs)
store (suc i) b (x ∷ xs) = elim (store i b xs) [ none ↦ none | some ys ↦ some (x ∷ ys) ]

-- `memcpy(response + i, from, n)`.
unfoldable pub copy_bytes : ℕ → Bytes → ℕ → Buffer → Option Buffer
unfolding store
copy_bytes i from zero response = some response
copy_bytes i [] (suc n) response = none
copy_bytes i (b ∷ from) (suc n) response = elim (store i b response) [
  | none ↦ none
  | some response ↦ copy_bytes (i + 1) from n response
]

-- The writes after the array is there, given the two lengths.
unfoldable pub write_response : Credentials → ℕ → ℕ → Buffer → Option Buffer
unfolding store copy_bytes
write_response credentials username_size password_size response = elim (store 0 0 response) [
  | none ↦ none
  | some response ↦ elim (copy_bytes 1 credentials.username username_size response) [
    | none ↦ none
    | some response ↦ elim (store (username_size + 1) 0 response) [
      | none ↦ none
      | some response ↦ copy_bytes (username_size + 2) credentials.password password_size response
    ]
  ]
]

-- `size_t` arithmetic wraps round.
unfoldable pub on_auth_initial : Credentials → Option Buffer
unfolding strlen write_response
on_auth_initial credentials = elim (strlen credentials.username) [
  | none ↦ none
  | some username_size ↦ elim (strlen credentials.password) [
    | none ↦ none
    | some password_size ↦
        let size = (username_size + password_size + 2) % 2 ^ 64 in
        write_response credentials username_size password_size (new_buffer size)
  ]
]

-- The objects of the driver that a run holds, one of each kind at a time.
pub data Object : Type 0 where
  cluster session connect_future close_future statement result_future result : Object

-- What `main` does with them. A statement is made of its query.
pub data DriverStep : Type 0 where
  creates : Object → DriverStep
  queries : Bytes → DriverStep
  uses : Object → DriverStep
  frees : Object → DriverStep
  prints : Bytes → DriverStep

-- What comes back for a query: an error, no row, or a row with the column "emp_city", which can be
-- null. It is given by the bytes of memory from the address of its text on, as the driver does not
-- end a text with a zero.
pub data Reply : Type 0 where
  fails : Reply
  no_row : Reply
  row : Option Bytes → Reply

-- The decimal digits of a number before others; one round for each digit.
abbrev pub digits : ℕ → ℕ → Bytes → Bytes
digits zero n after = after
digits (suc fuel) n after =
    let rest = digits fuel (n / 10) ((48 + n % 10) ∷ after) in
    if ltb n 10 then (48 + n) ∷ after else rest

-- `std::to_string`; a number has at most as many digits as its successor says.
unfoldable pub to_string : ℕ → Bytes
to_string n = digits (suc n) n []

unfoldable pub tmp_query : ℕ → Bytes
unfolding to_string
tmp_query i =
    ascii "SELECT emp_id,emp_name,emp_city,emp_phone,emp_sal FROM rs_test_space.emp WHERE emp_id = "
    ++ (to_string (i % 11) ++ ascii ";")

-- What `<<` prints of a `const char*`: the bytes up to the first zero. Memory without a zero is read
-- past its end, which is undefined.
unfoldable pub c_string : Bytes → Option Bytes
c_string [] = none
c_string (c ∷ cs) =
    let rest = c_string cs in
    if c == 0 then some [] else elim rest [ none ↦ none | some t ↦ some (c ∷ t) ]

-- A row. The line that is printed has the city twice, as a C string and without regard to its
-- length, and a null city is printed through a null pointer, which is undefined.
unfoldable pub read_row : Option Bytes → Option (List DriverStep)
unfolding c_string
read_row none = none
read_row (some emp_city) = elim (c_string emp_city) [
  | none ↦ none
  | some text ↦ some (uses result ∷ prints text ∷ prints text ∷ [])
]

unfoldable pub read_reply : Reply → Option (List DriverStep)
unfolding read_row
read_reply fails = some (uses result_future ∷ [])
read_reply no_row =
    some (creates result ∷ uses result ∷ prints (ascii "null ptr") ∷ frees result ∷ [])
read_reply (row city) = elim (read_row city) [
  | none ↦ none
  | some steps ↦ some (creates result ∷ uses result ∷ (steps ++ frees result ∷ []))
]

-- One round of the loop.
unfoldable pub run_query : ℕ → Reply → Option (List DriverStep)
unfolding tmp_query read_reply
run_query i reply = elim (read_reply reply) [
  | none ↦ none
  | some steps ↦ some (
      queries (tmp_query i)
      ∷ uses session
      ∷ uses statement
      ∷ creates result_future
      ∷ uses result_future
      ∷ (steps ++ frees statement ∷ frees result_future ∷ []))
]

-- The loop from `i` on, with a reply for each round that is left.
unfoldable pub run_queries : ℕ → List Reply → Option (List DriverStep)
unfolding run_query
run_queries i [] = some []
run_queries i (reply ∷ replies) = elim (run_query i reply) [
  | none ↦ none
  | some steps ↦ elim (run_queries (i + 1) replies) [
    | none ↦ none
    | some more ↦ some (steps ++ more)
  ]
]

-- What `main` does once it is connected, or is not.
unfoldable pub run_session : Bool → List Reply → Option (List DriverStep)
unfolding run_queries
run_session false replies = some (uses connect_future ∷ [])
run_session true replies = elim (run_queries 0 replies) [
  | none ↦ none
  | some steps ↦
      some
        (steps ++ uses session ∷ creates close_future ∷ uses close_future ∷ frees close_future ∷ [])
]

unfoldable pub driver_main : Bool → List Reply → Option (List DriverStep)
unfolding run_session
driver_main connected replies = elim (run_session connected replies) [
  | none ↦ none
  | some steps ↦ some (
      creates cluster
      ∷ creates session
      ∷ uses cluster
      ∷ uses session
      ∷ creates connect_future
      ∷ uses connect_future
      ∷ (steps ++ frees connect_future ∷ frees cluster ∷ frees session ∷ []))
]
