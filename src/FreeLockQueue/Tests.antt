-- ===== src/FreeLockQueue/Tests.antt =====
-- Runs of the queue with deletion.
use cpp_freshman.Prelude.{true, none, some, [], ◌∷◌, ◌≡◌, refl, arith}
use cpp_freshman.FreeLockQueue.{
  new_node, returned_true, NodeMemory, put, de_top, de_delete, Pair, one, two, pair_run,
}
use cpp_freshman.FreeLockQueue.Enqueue.{three, pair_run-en_queue}
use cpp_freshman.FreeLockQueue.Race.{Chain, both, two_calls, pair_run-both}

-- A queue of 5 and 6 behind a first node.
abbrev of_two : NodeMemory
of_two = record {
  val = put (put (λ a. 0) 2 5) 3 6;
  next = put (put (λ a. 0) 1 2) 2 3;
  lives = (λ a. true);
  head = 1;
  tail = 3;
  unused = 4;
}

of_two-Chain : Chain of_two 1 (5 ∷ 6 ∷ [])
of_two-Chain = (refl, (omega arith, refl), refl, (refl, (omega arith, refl), refl, (refl, refl)))

pair_run-both_example :
    (t : Pair) × (pair_run both (two_calls of_two) ≡ some t)
    × (t.first ≡ de_delete 1 5)
    × (t.second ≡ de_delete 1 5)
    × (pair_run (one ∷ two ∷ []) t ≡ none)
    × (pair_run (two ∷ one ∷ []) t ≡ none)
pair_run-both_example = pair_run-both of_two 5 (6 ∷ []) of_two-Chain

pair_run-en_queue_example :
    (t : Pair) × (pair_run three (record {
      memory = (new_node 9 0 of_two).memory;
      first = (new_node 9 0 of_two).place;
      second = de_top;
    })
      ≡ some t)
    × (t.first ≡ returned_true)
    × (t.second ≡ de_top)
    × Chain t.memory t.memory.head (5 ∷ 6 ∷ 9 ∷ [])
pair_run-en_queue_example =
    pair_run-en_queue of_two 9 (5 ∷ 6 ∷ []) de_top of_two-Chain refl refl (omega arith)
