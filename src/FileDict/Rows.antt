-- ===== src/FileDict/Rows.antt =====
-- The two dictionaries after `load`, by the lines of the file.
use cpp_freshman.Prelude.{
  true, Option, none, some, List, [], ◌∷◌, ◌++◌, ◌≡◌, ◌∙◌, inl, inr, Option-cases, arith, map,
  Bytes, Eq,
}
use mathlib.Core.List.{reverse}
use mathlib.Core.Option
use cpp_freshman.FileDict.{
  Row, entry, skip, bad, stuck, finished, File, load, Lexical, common_row, common_load, get_key,
}
use cpp_freshman.FileDict.Map.{assign, put_all, find-put_all-assign}
use cpp_freshman.FileDict.Load.{lines, row_or_skip, run_rows, IsReadable, load-run_rows}

-- The entries of some rows, if none throws.
abbrev pub gather {ℓ} : {E : Type ℓ} → List (Row E) → Option (List E)
gather [] = some []
gather (entry e ∷ rs) = Option.map (◌∷◌ e) (gather rs)
gather (skip ∷ rs) = gather rs
gather (bad ∷ rs) = none
gather (stuck ∷ rs) = none

-- The entries of a file.
abbrev pub entries {ℓ} : {E : Type ℓ} → (Bytes → Row E) → File → Option (List E)
entries row file = gather (map (row_or_skip row) (lines file.content))

module _ {ℓ κ} {K : Type ℓ} {V : Type κ} ⦃e : Eq K⦄
    (put : K × V → List (K × V) → List (K × V)) where
  pub run_rows-put_all :
      (rs : List (Row (K × V))) (es m : List (K × V))
      → gather rs ≡ some es
      → run_rows put rs m ≡ finished true (put_all put es m)
  unfolding run_rows put_all
  run_rows-put_all [] es m h = let nil : [] ≡ es = ground arith in rw (← nil)
  run_rows-put_all (entry x ∷ rs) es m h = elim (Option-cases (gather rs)) [
    | inl none_left ↦ absurd (ground arith)
    | inr (later, g) ↦
        let split : x ∷ later ≡ es = ground arith in
        rw (← split) (run_rows-put_all rs later (put x m) g)
  ]
  run_rows-put_all (skip ∷ rs) es m h = run_rows-put_all rs es m h
  run_rows-put_all (bad ∷ rs) es m h = cc
  run_rows-put_all (stuck ∷ rs) es m h = cc

  load-put_all :
      (row : Bytes → Row (K × V)) (file : File) (es m : List (K × V))
      → IsReadable file
      → entries row file ≡ some es
      → load row put file m ≡ finished true (put_all put es m)
  load-put_all row file es m r h = load-run_rows row put file m r ∙ run_rows-put_all _ es m h

pub common_load-get_key {ℓ κ} :
    {K : Type ℓ} {V : Type κ} ⦃e : Eq K⦄ (lex : Lexical K V) (file : File) (es m : List (K × V))
    → IsReadable file
    → entries (common_row lex) file ≡ some es
    → (m' : List (K × V)) × (common_load lex file m ≡ finished true m')
      × ((missing : V) (k : K) → get_key missing m' k ≡ get_key missing (reverse es ++ m) k)
unfolding common_load get_key
common_load-get_key lex file es m r h = (
  put_all assign es m,
  load-put_all assign (common_row lex) file es m r h,
  λ missing k. rw (find-put_all-assign k es m),
)
