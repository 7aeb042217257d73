-- ===== src/FileDict/Tests.antt =====
-- Concrete files for the dictionaries.
use cpp_freshman.Prelude.{ℕ, true, List, [], ◌∷◌, ◌≡◌, refl, Bytes, nat_eq, arith}
use cpp_freshman.Split.{value, contains, split_new_v1}
use cpp_freshman.Split.Tests.{digit}
use cpp_freshman.FileDict.{
  File, Lexical, finished, common_load, offer_load, get_key, common_items, offer_items, assign,
  emplace,
}
use cpp_freshman.FileDict.Store.{Written, dump, AllRows, common_load-dump}
use mathlib.Core.List.{reverse}
use cpp_freshman.Prelude.{◌++◌}

abbrev pub digits : Lexical ℕ ℕ
digits = record { to_string = value; to_key = digit; to_value = digit }

abbrev pub three_rows : List (Written ℕ ℕ)
three_rows =
    record { key_text = b'1' ∷ []; value_text = b'5' ∷ []; stored = (1, 5) }
    ∷ record { key_text = b'2' ∷ []; value_text = b'6' ∷ []; stored = (2, 6) }
    ∷ record { key_text = b'1' ∷ []; value_text = b'7' ∷ []; stored = (1, 7) }
    ∷ []

abbrev pub file_of : Bytes → File
file_of s = record { stat_ok = true; regular = true; good = true; content = s }

-- "1\t5\n\n2\t6\n1\t7", with an empty line.
abbrev pub text_file : File
text_file =
    file_of
      (b'1' ∷ b'\t' ∷ b'5' ∷ b'\n' ∷ b'\n' ∷ b'2' ∷ b'\t' ∷ b'6' ∷ b'\n' ∷ b'1' ∷ b'\t' ∷ b'7' ∷ [])

abbrev pub text_entries : List (ℕ × ℕ)
text_entries = (1, 5) ∷ (2, 6) ∷ (1, 7) ∷ []

pub common_runs : common_load digits text_file [] ≡ finished true ((1, 7) ∷ (2, 6) ∷ [])
unfolding common_load split_new_v1 common_items assign
common_runs = refl

pub offer_runs : offer_load digit (λ d. d) text_file [] ≡ finished true ((1, 5) ∷ (2, 6) ∷ [])
unfolding offer_load split_new_v1 offer_items emplace
offer_runs = refl

pub three_rows-AllRows : AllRows digits (λ s. refl) three_rows
unfolding contains
three_rows-AllRows = ground arith

common_load-dump_example :
    (m' : List (ℕ × ℕ)) × (common_load digits (file_of (dump three_rows)) [] ≡ finished true m')
    × ((missing k : ℕ) → get_key missing m' k ≡ get_key missing (reverse text_entries ++ []) k)
common_load-dump_example =
    common_load-dump digits (λ s. refl) (file_of (dump three_rows)) three_rows [] (refl, refl, refl)
      refl three_rows-AllRows
