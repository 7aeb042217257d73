-- ===== src/FileDict/Store.antt =====
-- A file that is written row by row, for `CommonFileDict::load`.
use cpp_freshman.Prelude.{
  ℕ, Bool, true, false, some, List, [], ◌∷◌, ◌++◌, ◌≡◌, refl, sym, ap, ◌∙◌, arith, map, Bytes, Eq,
  length, ◌==◌,
}
use mathlib.Core.List.{reverse, append-nil}
use cpp_freshman.Split.{value, contains}
use cpp_freshman.Split.Reference.{words}
use cpp_freshman.Split.Words.{
  AllBytes, IsToken, words-token, words-cut, flush_token, contains_self, split_new_v1_text,
}
use cpp_freshman.FileDict.{
  entry, finished, File, Lexical, common_value, common_items, common_row, common_load, get_key, tab,
}
use cpp_freshman.FileDict.Load.{lines, row_or_skip, IsReadable}
use cpp_freshman.FileDict.Rows.{gather, common_load-get_key}

-- A row of a file: its two texts, and the entry that they stand for.
pub record Written {ℓ κ} (K : Type ℓ) (V : Type κ) : Type (ℓ ⊔ κ) where
  pub key_text : Bytes
  pub value_text : Bytes
  pub stored : K × V

-- Each row with a tab between its columns and a newline behind it.
abbrev pub dump {ℓ κ} : {K : Type ℓ} {V : Type κ} → List (Written K V) → Bytes
dump [] = []
dump (r ∷ rows) = (r.key_text ++ b'\t' ∷ r.value_text) ++ b'\n' ∷ dump rows

lines-line :
    (l rest : Bytes)
    → AllBytes (λ c. c == b'\n') false l
    → lines (l ++ b'\n' ∷ rest) ≡ l ∷ lines rest
unfolding lines
lines-line [] rest h = refl
lines-line (c ∷ l) rest h = rw (h.0, lines-line l rest h.1)

AllBytes-append :
    (p : ℕ → Bool) (xs ys : Bytes)
    → AllBytes p false xs
    → AllBytes p false ys
    → AllBytes p false (xs ++ ys)
AllBytes-append p [] ys h k = k
AllBytes-append p (x ∷ xs) ys h k = (h.0, AllBytes-append p xs ys h.1 k)

-- A column is nonempty and has neither a tab nor a newline.
abbrev pub IsColumn : Bytes → Type 0
IsColumn w = IsToken (contains tab) w × AllBytes (λ c. c == b'\n') false w

words_columns :
    (k v : Bytes)
    → IsToken (contains tab) k
    → IsToken (contains tab) v
    → words (contains tab) [] (k ++ b'\t' ∷ v) ≡ k ∷ v ∷ []
unfolding words
words_columns k v hk hv =
    words-token (contains tab) k (b'\t' ∷ v) [] hk.1
    ∙ words-cut (contains tab) b'\t' v k (contains_self b'\t')
    ∙ rw (flush_token (contains tab) k hk) (ap (◌∷◌ k) last)
  where
    last : words (contains tab) [] v ≡ v ∷ []
    last =
        ap (words (contains tab) []) (sym (append-nil v))
        ∙ words-token (contains tab) v [] [] hv.1
        ∙ flush_token (contains tab) v hv

module _ {ℓ κ} {K : Type ℓ} {V : Type κ} (lex : Lexical K V)
    (same : (s : Bytes) → lex.to_string s ≡ value s) where
  -- The columns are well formed, and the conversions read the entry from them.
  pub record IsRow (r : Written K V) : Type (ℓ ⊔ κ) where
    pub key_column : IsColumn r.key_text
    pub value_column : IsColumn r.value_text
    pub reads_key : lex.to_key r.key_text ≡ value r.stored.0
    pub reads_value : lex.to_value r.value_text ≡ value r.stored.1

  abbrev pub AllRows : List (Written K V) → Type (ℓ ⊔ κ)
  AllRows [] = Unit
  AllRows (r ∷ rows) = IsRow r × AllRows rows

  common_row-words :
      (line : Bytes) → common_row lex line ≡ common_items lex (words (contains tab) [] line)
  unfolding common_row
  common_row-words line = rw (split_new_v1_text lex.to_string same line tab [], common_row)

  common_items_written :
      (r : Written K V)
      → IsRow r
      → common_items lex (r.key_text ∷ r.value_text ∷ []) ≡ entry r.stored
  unfolding common_items common_value
  common_items_written r h = rw (h.reads_key, common_items) (rw (h.reads_value, common_value))

  common_row_written :
      (r : Written K V)
      → IsRow r
      → common_row lex (r.key_text ++ b'\t' ∷ r.value_text) ≡ entry r.stored
  common_row_written r h =
      common_row-words (r.key_text ++ b'\t' ∷ r.value_text)
      ∙ ap (common_items lex)
          (words_columns r.key_text r.value_text h.key_column.0 h.value_column.0)
      ∙ common_items_written r h

  length_columns : (k v : Bytes) → (length (k ++ b'\t' ∷ v) == 0) ≡ false
  length_columns [] v = ground arith
  length_columns (c ∷ k) v = ground arith

  entries_dump :
      (rows : List (Written K V))
      → AllRows rows
      → gather (map (row_or_skip (common_row lex)) (lines (dump rows)))
        ≡ some (map (λ (r : Written K V). r.stored) rows)
  unfolding lines
  entries_dump [] h = refl
  entries_dump (r ∷ rows) h =
      let line = r.key_text ++ b'\t' ∷ r.value_text in
      let tabbed : AllBytes (λ c. c == b'\n') false (b'\t' ∷ r.value_text) =
        (refl, h.0.value_column.1) in
      let clean =
        AllBytes-append (λ c. c == b'\n') r.key_text (b'\t' ∷ r.value_text) h.0.key_column.1
          tabbed in
      rw (lines-line line (dump rows) clean) (
        rw (length_columns r.key_text r.value_text, common_row_written r h.0)
          (rw (entries_dump rows h.1)))

  -- A readable file that holds well-formed rows, one to a line, loads to exactly their entries:
  -- the last row of a key counts, and keys in no row keep what the dictionary held.
  pub common_load-dump :
      ⦃e : Eq K⦄ (file : File) (rows : List (Written K V)) (m : List (K × V))
      → IsReadable file
      → file.content ≡ dump rows
      → AllRows rows
      → (m' : List (K × V)) × (common_load lex file m ≡ finished true m')
        × ((missing : V) (k : K)
            → get_key missing m' k
              ≡ get_key missing (reverse (map (λ (r : Written K V). r.stored) rows) ++ m) k)
  common_load-dump file rows m r content h =
      common_load-get_key lex file (map (λ (r : Written K V). r.stored) rows) m r
        (rw content (entries_dump rows h))
