-- ===== src/Split/Tests.antt =====
-- Concrete runs of `split_new_v1`.
use cpp_freshman.Prelude.{ℕ, ◌-◌, List, [], ◌∷◌, ◌≡◌, refl, Bytes, leb, if◌then◌else◌, ◌&&◌, arith}
use cpp_freshman.Split.{contains, Cast, value, bad_cast, number, text, returned, split_new_v1}
use cpp_freshman.Split.Reference.{words, store}
use cpp_freshman.Split.Loop.{split_new_v1-store}
use cpp_freshman.Split.Words.{AllTokens, join, split_new_v1-join}

-- A conversion that takes one decimal digit.
abbrev pub digit : Bytes → Cast ℕ
digit (c ∷ []) = if leb b'0' c && leb c b'9' then value (c - b'0') else bad_cast
digit s = bad_cast

abbrev row : Bytes
row = b'\t' ∷ b'1' ∷ b'\t' ∷ b'\t' ∷ b'x' ∷ b'2' ∷ b'\t' ∷ b'3' ∷ []

split_row :
    split_new_v1 value text row (b'\t' ∷ []) []
    ≡ returned 3 ((b'1' ∷ []) ∷ (b'x' ∷ b'2' ∷ []) ∷ (b'3' ∷ []) ∷ [])
unfolding split_new_v1
split_row = refl

abbrev pieces : List Bytes
pieces = (b'1' ∷ []) ∷ (b'x' ∷ b'2' ∷ []) ∷ []

pieces-AllTokens : AllTokens (contains (b'\t' ∷ [])) pieces
unfolding contains
pieces-AllTokens = ground arith

split_new_v1-join_example :
    split_new_v1 value text (join b'\t' pieces) (b'\t' ∷ []) [] ≡ returned 2 pieces
split_new_v1-join_example = split_new_v1-join value (λ s. refl) b'\t' pieces pieces-AllTokens

row-words :
    words (contains (b'\t' ∷ [])) [] row ≡ (b'1' ∷ []) ∷ (b'x' ∷ b'2' ∷ []) ∷ (b'3' ∷ []) ∷ []
unfolding words contains
row-words = refl

split_new_v1-store_example :
    split_new_v1 digit number row (b'\t' ∷ []) []
    ≡ store digit number (words (contains (b'\t' ∷ [])) [] row) [] 0
split_new_v1-store_example = split_new_v1-store digit number row (b'\t' ∷ []) []
