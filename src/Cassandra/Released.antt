-- ===== src/Cassandra/Released.antt =====
-- The objects of the driver that `main` of example/cassandra_driver/main.cpp holds at each point.
use mathlib.Core.List.{append_assoc, append-nil}
use cpp_freshman.Prelude.{
  ℕ, ◌+◌, ◌%◌, ◌≤◌, ascii, ◌==◌, Bool-cases, Bool, true, false, Option, none, some, List, [], ◌∷◌,
  ◌++◌, ◌≡◌, refl, ap, ◌∙◌, Bytes, if◌then◌else◌, arith, inl, inr, Option-cases,
}
use cpp_freshman.Cassandra.{
  Object, cluster, session, connect_future, close_future, statement, result_future, result,
  DriverStep, creates, queries, uses, frees, prints, Reply, fails, no_row, row, tmp_query, read_row,
  c_string, to_string, read_reply, run_query, run_queries, run_session, driver_main,
}

-- Which objects are held.
pub record Held : Type 0 where
  pub has_cluster : Bool
  pub has_session : Bool
  pub has_connect : Bool
  pub has_close : Bool
  pub has_statement : Bool
  pub has_future : Bool
  pub has_result : Bool

abbrev pub nothing_held : Held
nothing_held = record {
  has_cluster = false;
  has_session = false;
  has_connect = false;
  has_close = false;
  has_statement = false;
  has_future = false;
  has_result = false;
}

abbrev pub holds : Object → Held → Bool
holds cluster h = h.has_cluster
holds session h = h.has_session
holds connect_future h = h.has_connect
holds close_future h = h.has_close
holds statement h = h.has_statement
holds result_future h = h.has_future
holds result h = h.has_result

abbrev pub set_held : Object → Bool → Held → Held
set_held cluster b h = record h { has_cluster = b }
set_held session b h = record h { has_session = b }
set_held connect_future b h = record h { has_connect = b }
set_held close_future b h = record h { has_close = b }
set_held statement b h = record h { has_statement = b }
set_held result_future b h = record h { has_future = b }
set_held result b h = record h { has_result = b }

-- A step on what is held: an object that is made must not be there (the one before would be lost),
-- and one that is used or freed must be there.
abbrev pub hold_step : DriverStep → Held → Option Held
hold_step (creates o) h = if holds o h then none else some (set_held o true h)
hold_step (queries q) h = if holds statement h then none else some (set_held statement true h)
hold_step (uses o) h = if holds o h then some h else none
hold_step (frees o) h = if holds o h then some (set_held o false h) else none
hold_step (prints t) h = some h

abbrev pub hold_all : List DriverStep → Held → Option Held
hold_all [] h = some h
hold_all (s ∷ ss) h = elim (hold_step s h) [ none ↦ none | some k ↦ hold_all ss k ]

pub hold_all-append :
    (a b : List DriverStep) (h k : Held)
    → hold_all a h ≡ some k
    → hold_all (a ++ b) h ≡ hold_all b k
hold_all-append [] b h k e = ground arith
hold_all-append (s ∷ ss) b h k e = elim (Option-cases (hold_step s h)) [
  | inl f ↦ ground arith
  | inr (m, f) ↦ rw (hold_all, f) (hold_all-append ss b m k (rw (hold_all, f) at e))
]

-- The queries among the steps.
abbrev pub asked : List DriverStep → List Bytes
asked [] = []
asked (queries q ∷ ss) = q ∷ asked ss
asked (creates o ∷ ss) = asked ss
asked (uses o ∷ ss) = asked ss
asked (frees o ∷ ss) = asked ss
asked (prints t ∷ ss) = asked ss

pub asked-append : (a b : List DriverStep) → asked (a ++ b) ≡ asked a ++ asked b
asked-append [] b = refl
asked-append (queries q ∷ ss) b = ap (◌∷◌ q) (asked-append ss b)
asked-append (creates o ∷ ss) b = asked-append ss b
asked-append (uses o ∷ ss) b = asked-append ss b
asked-append (frees o ∷ ss) b = asked-append ss b
asked-append (prints t ∷ ss) b = asked-append ss b

-- The number of an employee as text, from 0 to 10.
abbrev pub number : ℕ → Bytes
number k = if k == 10 then 49 ∷ 48 ∷ [] else (48 + k) ∷ []

-- The query for an employee.
abbrev pub query_of : ℕ → Bytes
query_of k =
    ascii "SELECT emp_id,emp_name,emp_city,emp_phone,emp_sal FROM rs_test_space.emp WHERE emp_id = "
    ++ (number k ++ 59 ∷ [])

-- A query for each reply, for the employees from `k` to 10 and then from 0 to 10 again and again.
abbrev pub queries_from : ℕ → List Reply → List Bytes
queries_from k [] = []
queries_from k (r ∷ rs) = query_of k ∷ queries_from (if k == 10 then 0 else k + 1) rs

to_string-number : (k : ℕ) → k ≤ 10 → to_string k ≡ number k
unfolding to_string
to_string-number k small = elim (Bool-cases (k == 10)) [
  | inl e ↦ let same : k ≡ 10 = ground arith in rw same refl
  | inr e ↦ ground arith
]

tmp_query-query_of : (i : ℕ) → tmp_query i ≡ query_of (i % 11)
unfolding tmp_query
tmp_query-query_of i = rw (to_string-number (i % 11) (omega arith)) refl

next-mod : (i : ℕ) → (if i % 11 == 10 then 0 else i % 11 + 1) ≡ (i + 1) % 11
next-mod i = ground arith

-- No row that comes back has a null city, and a zero ends each city somewhere in memory.
abbrev pub IsPrintable : Reply → Type 0
IsPrintable fails = Unit
IsPrintable no_row = Unit
IsPrintable (row none) = ⊥
IsPrintable (row (some m)) = (t : Bytes) × (c_string m ≡ some t)

abbrev pub ArePrintable : List Reply → Type 0
ArePrintable [] = Unit
ArePrintable (r ∷ rs) = IsPrintable r × ArePrintable rs

-- What is held in the loop.
abbrev pub connected_held : Held
connected_held = record nothing_held { has_cluster = true; has_session = true; has_connect = true }

pub run_query-held :
    (i : ℕ) (r : Reply)
    → IsPrintable r
    → (steps : List DriverStep) × (run_query i r ≡ some steps)
      × (hold_all steps connected_held ≡ some connected_held)
      × (asked steps ≡ query_of (i % 11) ∷ [])
unfolding run_query read_reply read_row
run_query-held i fails p = (_, refl, refl, rw (tmp_query-query_of i) refl)
run_query-held i no_row p = (_, refl, refl, rw (tmp_query-query_of i) refl)
run_query-held i (row none) p = absurd p
run_query-held i (row (some m)) (t, f) = (
  queries (tmp_query i)
      ∷ uses session
      ∷ uses statement
      ∷ creates result_future
      ∷ uses result_future
      ∷ creates result
      ∷ uses result
      ∷ uses result
      ∷ prints t
      ∷ prints t
      ∷ frees result
      ∷ frees statement
      ∷ frees result_future
      ∷ [],
  rw (run_query, read_reply, read_row, f) refl,
  refl,
  rw (tmp_query-query_of i) refl,
)

pub run_queries-held :
    (i : ℕ) (rs : List Reply)
    → ArePrintable rs
    → (steps : List DriverStep) × (run_queries i rs ≡ some steps)
      × (hold_all steps connected_held ≡ some connected_held)
      × (asked steps ≡ queries_from (i % 11) rs)
unfolding run_queries
run_queries-held i [] p = ([], refl, refl, refl)
run_queries-held i (r ∷ rs) (p, ps) =
    let (steps, e, h, a) = run_query-held i r p in
    let (more, f, k, b) = run_queries-held (i + 1) rs ps in
    (
      steps ++ more,
      rw (run_queries, e, f) refl,
      hold_all-append steps more connected_held connected_held h ∙ k,
      asked-append steps more ∙ rw (a, b, next-mod i) refl,
    )

-- `main` that is connected asks for the employees from 0 to 10 and then from 0 again, a query for
-- each round, and whether queries fail, have no row or have one, it uses and frees only what it
-- holds, makes no object over one that it holds, and holds nothing at its end, provided that no row
-- has a null city and that a zero byte ends each city in memory.
pub driver_main_released :
    (rs : List Reply)
    → ArePrintable rs
    → (steps : List DriverStep) × (driver_main true rs ≡ some steps)
      × (hold_all steps nothing_held ≡ some nothing_held)
      × (asked steps ≡ queries_from 0 rs)
unfolding driver_main run_session
driver_main_released rs p =
    let (steps, e, h, a) = run_queries-held 0 rs p in
    let closing =
      uses session ∷ creates close_future ∷ uses close_future ∷ frees close_future ∷ [] in
    let ending = frees connect_future ∷ frees cluster ∷ frees session ∷ [] in
    (
      creates cluster
          ∷ creates session
          ∷ uses cluster
          ∷ uses session
          ∷ creates connect_future
          ∷ uses connect_future
          ∷ ((steps ++ closing) ++ ending),
      rw (driver_main, run_session, e) refl,
      rw (append_assoc steps closing ending)
          (hold_all-append steps (closing ++ ending) connected_held connected_held h),
      asked-append (steps ++ closing) ending
          ∙ append-nil (asked (steps ++ closing))
          ∙ asked-append steps closing
          ∙ append-nil (asked steps)
          ∙ a,
    )
