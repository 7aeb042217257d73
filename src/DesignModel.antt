-- ===== src/DesignModel.antt =====
-- example/design_model/: the exercises on design patterns. What an object does is what it prints;
-- a call answers the lines that it writes, in order.
pub mod AbstractFactory
pub mod SimpleFactory
pub mod Strategy
pub mod Methods
pub mod Brands
pub mod Contexts
pub mod Tests
use cpp_freshman.Prelude.{Bool, true, false, List, [], ◌∷◌, ◌≡◌, ◌&&◌, ◌==◌, Bytes}

abbrev pub Lines : Type 0
Lines = List Bytes

abbrev pub All : (Bytes → Type 0) → Lines → Type 0
All P [] = Unit
All P (l ∷ ls) = P l × All P ls

-- The first text is a beginning of the second.
abbrev pub starts : Bytes → Bytes → Bool
starts [] line = true
starts (c ∷ cs) [] = false
starts (c ∷ cs) (d ∷ ds) = c == d && starts cs ds
