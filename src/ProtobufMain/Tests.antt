-- ===== src/ProtobufMain/Tests.antt =====
-- A run of `main` in which the threads take turns.
use Prim.Native.Nat.{zero, suc}
use cpp_freshman.Prelude.{ℕ, some, List, [], ◌∷◌, ◌≡◌, refl, arith, ascii}
use cpp_freshman.CacheLine.{Cells, Turn, first_turn, second_turn}
use cpp_freshman.CacheLine.Runs.{turns, IsFair}
use cpp_freshman.ProtobufMain.{then_undefined, protobuf_main}
use cpp_freshman.ProtobufMain.Ends.{protobuf_main_undefined}

-- A sealed schedule: it is not computed.
by_turns : ℕ → List Turn
by_turns zero = []
by_turns (suc n) = first_turn ∷ second_turn ∷ by_turns n

turns-by_turns :
    (n : ℕ) → (turns first_turn (by_turns n) ≡ n) × (turns second_turn (by_turns n) ≡ n)
unfolding by_turns
turns-by_turns zero = (refl, refl)
turns-by_turns (suc n) = omega (arith, turns-by_turns n)

by_turns-IsFair : IsFair 10000 (by_turns 30001)
by_turns-IsFair = omega (arith, turns-by_turns 30001)

abbrev zeros : Cells
zeros x = 0

protobuf_main_undefined_example :
    protobuf_main 64 zeros (by_turns 30001)
    ≡ some
        (then_undefined (ascii "xxxxxxx:20000" ∷ ascii "YES_OR_NO(1)" ∷ ascii "YES_OR_NO(0)" ∷ []))
protobuf_main_undefined_example =
    protobuf_main_undefined 64 zeros (by_turns 30001) (λ x. omega arith) by_turns-IsFair
