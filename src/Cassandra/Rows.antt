-- ===== src/Cassandra/Rows.antt =====
-- example/brpc/cassandra_test.cpp: `GetDmpDataFromCassandra`, which prints the rows of a response,
-- and `main`. The channel is a parameter, by the responses that come back.
use cpp_freshman.Prelude.{
  ℕ, ◌+◌, Bool, true, false, Option, none, some, List, [], ◌∷◌, ◌++◌, ◌≡◌, ◌⊎◌, inl, inr, refl,
  Bytes, length, if◌then◌else◌, Option-cases, Bool-cases,
}
use cpp_freshman.Cassandra.{tmp_query}

-- The columns of a row; `none` is a status that is not 0. An `int` is its 32 bits.
pub record EmpRow : Type 0 where
  pub emp_id : Option ℕ
  pub emp_name : Option Bytes
  pub emp_city : Option Bytes

pub record CassandraResponse : Type 0 where
  pub failed : Bool
  pub rows : List EmpRow

-- What is printed of a row.
pub record EmpLine : Type 0 where
  pub row_count : ℕ
  pub name : Bytes
  pub id : ℕ
  pub city : Bytes

-- A text that could not be read stays empty.
abbrev pub text_or_empty : Option Bytes → Bytes
text_or_empty none = []
text_or_empty (some t) = t

-- One round of the loop; a number that could not be read is printed uninitialised, which is
-- undefined.
unfoldable pub print_row : ℕ → EmpRow → Option EmpLine
print_row row_count r = elim r.emp_id [
  | none ↦ none
  | some id ↦ some record {
    row_count = row_count;
    name = text_or_empty r.emp_name;
    id = id;
    city = text_or_empty r.emp_city;
  }
]

unfoldable pub print_rows : ℕ → List EmpRow → Option (List EmpLine)
unfolding print_row
print_rows row_count [] = some []
print_rows row_count (r ∷ rs) = elim (print_row row_count r) [
  | none ↦ none
  | some line ↦ elim (print_rows row_count rs) [ none ↦ none | some lines ↦ some (line ∷ lines) ]
]

unfoldable pub get_dmp_data : CassandraResponse → Option (Bool × List EmpLine)
unfolding print_rows
get_dmp_data resp =
    if resp.failed then some (false, []) else elim (print_rows (length resp.rows) resp.rows) [
      | none ↦ none
      | some lines ↦ some (true, lines)
    ]

-- What `main` prints: the query of a round, and the lines of its rows.
pub data ClientLine : Type 0 where
  asks : Bytes → ClientLine
  shows : EmpLine → ClientLine

abbrev pub show_lines : List EmpLine → List ClientLine
show_lines [] = []
show_lines (l ∷ ls) = shows l ∷ show_lines ls

-- The loop from `i` on; whether a request succeeded is stored and not read.
unfoldable pub ask_all : ℕ → List CassandraResponse → Option (List ClientLine)
unfolding tmp_query get_dmp_data
ask_all i [] = some []
ask_all i (resp ∷ resps) = elim (get_dmp_data resp) [
  | none ↦ none
  | some (result, lines) ↦ elim (ask_all (i + 1) resps) [
    | none ↦ none
    | some more ↦ some (asks (tmp_query i) ∷ (show_lines lines ++ more))
  ]
]

-- `main`: a channel that cannot be initialised ends it at once.
unfoldable pub client_main : Bool → List CassandraResponse → Option (List ClientLine)
unfolding ask_all
client_main false resps = some []
client_main true resps = ask_all 0 resps

-- A row whose number could not be read.
abbrev pub HasUnread : List EmpRow → Type 0
HasUnread [] = ⊥
HasUnread (r ∷ rs) = (r.emp_id ≡ none) ⊎ HasUnread rs

-- The line of each row, in order.
abbrev pub AreLines : ℕ → List EmpRow → List EmpLine → Type 0
AreLines n [] [] = Unit
AreLines n (r ∷ rs) (l ∷ ls) =
    (r.emp_id ≡ some l.id)
    × (l.name ≡ text_or_empty r.emp_name)
    × (l.city ≡ text_or_empty r.emp_city)
    × (l.row_count ≡ n)
    × AreLines n rs ls
AreLines n _ _ = ⊥

pub print_rows-AreLines :
    (n : ℕ) (rs : List EmpRow)
    → ((print_rows n rs ≡ none) × HasUnread rs)
      ⊎ ((lines : List EmpLine) × (print_rows n rs ≡ some lines) × AreLines n rs lines)
unfolding print_rows print_row
print_rows-AreLines n [] = inr ([], refl, tt)
print_rows-AreLines n (r ∷ rs) = elim (Option-cases r.emp_id) [
  | inl e ↦ inl (rw (print_rows, print_row, e) refl, inl e)
  | inr (id, e) ↦ elim (print_rows-AreLines n rs) [
    | inl (f, unread) ↦ inl (rw (print_rows, print_row, e, f) refl, inr unread)
    | inr (lines, f, are) ↦ inr (
      record {
        row_count = n;
        name = text_or_empty r.emp_name;
        id = id;
        city = text_or_empty r.emp_city;
      }
          ∷ lines,
      rw (print_rows, print_row, e, f) refl,
      (e, refl, refl, refl, are),
    )
  ]
]

-- A request that failed answers false and prints nothing; any other answers true and prints a line
-- for each row, with an empty text for one that could not be read, unless the number of some row
-- could not be read, and then it is undefined.
pub get_dmp_data-AreLines :
    (resp : CassandraResponse)
    → ((resp.failed ≡ true) × (get_dmp_data resp ≡ some (false, [])))
      ⊎ ((resp.failed ≡ false) × (get_dmp_data resp ≡ none) × HasUnread resp.rows)
      ⊎ ((resp.failed ≡ false)
          × (lines : List EmpLine) × (get_dmp_data resp ≡ some (true, lines))
          × AreLines (length resp.rows) resp.rows lines)
unfolding get_dmp_data
get_dmp_data-AreLines resp = elim (Bool-cases resp.failed) [
  | inl e ↦ inl (e, rw e refl)
  | inr e ↦ inr (elim (print_rows-AreLines (length resp.rows) resp.rows) [
    | inl (f, unread) ↦ inl (e, rw (get_dmp_data, e, f) refl, unread)
    | inr (lines, f, are) ↦ inr (e, lines, rw (get_dmp_data, e, f) refl, are)
  ])
]
