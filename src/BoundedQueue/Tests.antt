-- ===== src/BoundedQueue/Tests.antt =====
-- Runs of the program over a queue that is a list, with a capacity rounded up to a power of two.
use cpp_freshman.Prelude.{
  ℕ, ◌≤◌, ◌<◌, Option, none, some, List, [], ◌∷◌, ◌++◌, ◌≡◌, refl, arith, length, leb, ltb,
  if◌then◌else◌, Bytes, ascii,
}
use cpp_freshman.Cassandra.{to_string}
use cpp_freshman.BoundedQueue.{
  BoundedQueue, at_join_td2, Mover, main_moves, put_moves, get_moves, queue_program_run,
  queue_program_start,
}

record Texts : Type 0 where
  texts : List Bytes
  room : ℕ

abbrev push_text : Texts → Bytes → Option Texts
push_text q x =
    if ltb (length q.texts) q.room then some (record q { texts = q.texts ++ x ∷ [] }) else none

abbrev pop_text : ℕ → List Bytes → Option (Bytes × Texts)
pop_text n [] = none
pop_text n (x ∷ xs) = some (x, record { texts = xs; room = n })

push_text_full : (q : Texts) (x : Bytes) → q.room ≤ length q.texts → push_text q x ≡ none
push_text_full q x le = ground arith

push_text_room :
    (q : Texts) (x : Bytes)
    → length q.texts < q.room
    → (r : Texts) × (push_text q x ≡ some r) × (r.texts ≡ q.texts ++ x ∷ []) × (r.room ≡ q.room)
push_text_room q x lt = (record q { texts = q.texts ++ x ∷ [] }, ground arith, refl, refl)

pop_text_oldest :
    (n : ℕ) (ys : List Bytes) (x : Bytes) (xs : List Bytes)
    → ys ≡ x ∷ xs
    → (r : Texts) × (pop_text n ys ≡ some (x, r)) × (r.texts ≡ xs) × (r.room ≡ n)
pop_text_oldest n ys x xs e = (record { texts = xs; room = n }, rw e refl, refl, refl)

pop_text_empty : (n : ℕ) (ys : List Bytes) → ys ≡ [] → pop_text n ys ≡ none
pop_text_empty n ys e = rw e refl

abbrev texts_queue : BoundedQueue Texts
texts_queue = record {
  reserve_and_clear = λ n. record { texts = []; room = if leb n 1024 then 1024 else 2048 };
  push = push_text;
  pop = λ q. pop_text q.room q.texts;
  content = λ q. q.texts;
  capacity = λ q. q.room;
  content-reserve_and_clear = λ n. refl;
  push_room = push_text_room;
  push_full = push_text_full;
  pop_oldest = λ q. pop_text_oldest q.room q.texts;
  pop_empty = λ q. pop_text_empty q.room q.texts;
}

abbrev thread_first : List Mover
thread_first = put_moves ∷ main_moves ∷ put_moves ∷ get_moves ∷ main_moves ∷ put_moves ∷ []

-- Where the thread is first, `main` prints its text.
thread_first_result :
    (queue_program_run texts_queue thread_first (queue_program_start texts_queue)).main
    ≡ at_join_td2 (ascii "data:0")
unfolding queue_program_run to_string
thread_first_result = refl
