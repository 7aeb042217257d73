-- ===== src/Cassandra/Tests.antt =====
-- Runs of the Cassandra client.
use cpp_freshman.Prelude.{
  ◌++◌, none, false, ◌⊎◌, length, true, some, List, [], ◌∷◌, ◌≡◌, refl, Bytes, ascii, arith,
}
use cpp_freshman.Cassandra.{
  on_auth_initial, Buffer, Reply, fails, no_row, row, DriverStep, c_string, driver_main, tmp_query,
}
use cpp_freshman.Cassandra.Response.{read_plain, on_auth_initial-read_plain}
use cpp_freshman.Cassandra.Rows.{
  CassandraResponse, EmpLine, get_dmp_data, HasUnread, AreLines, get_dmp_data-AreLines,
}
use cpp_freshman.Cassandra.Released.{
  hold_all, nothing_held, asked, queries_from, driver_main_released,
}

abbrev name : Bytes
name = 97 ∷ 98 ∷ []

abbrev password : Bytes
password = 112 ∷ []

on_auth_initial_bytes :
    on_auth_initial (record { password = 112 ∷ 0 ∷ []; username = 97 ∷ 98 ∷ 0 ∷ [] })
    ≡ some (some 0 ∷ some 97 ∷ some 98 ∷ some 0 ∷ some 112 ∷ [])
unfolding on_auth_initial
on_auth_initial_bytes = refl

on_auth_initial-read_plain_example :
    (response : Buffer) × (on_auth_initial
        (record { password = 112 ∷ 0 ∷ []; username = 97 ∷ 98 ∷ 0 ∷ [] })
      ≡ some response)
    × (read_plain response ≡ some (name, password))
on_auth_initial-read_plain_example =
    on_auth_initial-read_plain name password (ground arith) (ground arith) (ground arith)

tmp_query_12 :
    tmp_query 12
    ≡ ascii
        "SELECT emp_id,emp_name,emp_city,emp_phone,emp_sal FROM rs_test_space.emp WHERE emp_id = 1;"
unfolding tmp_query
tmp_query_12 = refl

abbrev replies : List Reply
replies =
    row (some (ascii "Austin" ++ 7 ∷ 0 ∷ 5 ∷ []))
    ∷ no_row
    ∷ fails
    ∷ no_row
    ∷ no_row
    ∷ fails
    ∷ fails
    ∷ no_row
    ∷ no_row
    ∷ no_row
    ∷ no_row
    ∷ fails
    ∷ []

driver_main_released_example :
    (steps : List DriverStep) × (driver_main true replies ≡ some steps)
    × (hold_all steps nothing_held ≡ some nothing_held)
    × (asked steps ≡ queries_from 0 replies)
unfolding c_string
driver_main_released_example = driver_main_released replies (
  (ascii "Austin" ++ 7 ∷ [], refl),
  (tt, (tt, (tt, (tt, (tt, (tt, (tt, (tt, (tt, (tt, (tt, tt))))))))))),
)

-- One row in full, and one without its texts.
abbrev response : CassandraResponse
response = record {
  failed = false;
  rows =
      record { emp_id = some 4; emp_name = some name; emp_city = none }
      ∷ record { emp_id = some 5; emp_name = none; emp_city = some password }
      ∷ [];
}

get_dmp_data_lines :
    get_dmp_data response
    ≡ some (
      true,
      record { row_count = 2; name = name; id = 4; city = [] }
          ∷ record { row_count = 2; name = []; id = 5; city = password }
          ∷ [],
    )
unfolding get_dmp_data
get_dmp_data_lines = refl

get_dmp_data-AreLines_example :
    ((response.failed ≡ true) × (get_dmp_data response ≡ some (false, [])))
    ⊎ ((response.failed ≡ false) × (get_dmp_data response ≡ none) × HasUnread response.rows)
    ⊎ ((response.failed ≡ false)
        × (lines : List EmpLine) × (get_dmp_data response ≡ some (true, lines))
        × AreLines (length response.rows) response.rows lines)
get_dmp_data-AreLines_example = get_dmp_data-AreLines response
