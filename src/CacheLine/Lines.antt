-- ===== src/CacheLine/Lines.antt =====
-- The cache lines of 64 bytes on which the counters stand.
use cpp_freshman.Prelude.{ℕ, ◌/◌, ◌%◌, ◌≡◌, arith, ◌≢◌, ◌↔◌}
use cpp_freshman.CacheLine.{false_sharing_counter2, aligned_counter2}

abbrev pub line_of : ℕ → ℕ
line_of a = a / 64

-- Members with the alignment 64 stand on two lines, each at its start; without it, in a structure of
-- alignment 4, they are on one line unless the structure begins 4 bytes before the end of a line.
pub counters-lines :
    (aligned_at shared_at : ℕ)
    → aligned_at % 64 ≡ 0
    → shared_at % 4 ≡ 0
    → (line_of aligned_at ≢ line_of (aligned_counter2 aligned_at))
      × (aligned_counter2 aligned_at % 64 ≡ 0)
      × ((line_of shared_at ≡ line_of (false_sharing_counter2 shared_at)) ↔ (shared_at % 64 ≢ 60))
counters-lines aligned_at shared_at e f =
    (omega arith, omega arith, (λ g. omega arith, λ g. omega arith))
