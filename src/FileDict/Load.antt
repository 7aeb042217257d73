-- ===== src/FileDict/Load.antt =====
-- The loop of `load` over the lines of the file, and what it stores.
use cpp_freshman.Prelude.{
  ℕ, zero, suc, ◌+◌, ◌<◌, true, false, ◌&&◌, List, [], ◌∷◌, ◌≡◌, refl, ◌⊎◌, inl, inr, arith, ◌==◌,
  if◌then◌else◌, Bool-cases, length, map, Bytes,
}
use cpp_freshman.FileDict.{
  Stream, cut_line, getline, Row, entry, skip, bad, stuck, Loaded, finished, raised, unfinished,
  File, load_loop, load,
}

abbrev grow : ℕ → List Bytes → List Bytes
grow c [] = (c ∷ []) ∷ []
grow c (l ∷ ls) = (c ∷ l) ∷ ls

-- The lines of some bytes: newlines separate them, so the last one may be empty.
unfoldable pub lines : Bytes → List Bytes
lines [] = [] ∷ []
lines (c ∷ cs) = if c == b'\n' then [] ∷ lines cs else grow c (lines cs)

-- The row of a line; `load` passes an empty one over.
abbrev pub row_or_skip {ℓ} : {E : Type ℓ} → (Bytes → Row E) → Bytes → Row E
row_or_skip row line = if length line == 0 then skip else row line

lines-cut :
    (s : Bytes)
    → lines s ≡ (cut_line s).head ∷ (if (cut_line s).ended then lines (cut_line s).tail else [])
unfolding lines cut_line
lines-cut [] = refl
lines-cut (c ∷ s) = elim (Bool-cases (c == b'\n')) [
  | inl h ↦ rw h refl
  | inr h ↦ rw (h, lines-cut s)
]

cut_line-length : (s : Bytes) → (cut_line s).ended ≡ true → length (cut_line s).tail < length s
unfolding cut_line
cut_line-length [] h = cc
cut_line-length (c ∷ s) h = ground (arith, cut_line-length s)

abbrev pub IsReadable : File → Type 0
IsReadable file = (file.stat_ok ≡ true) × (file.regular ≡ true) × (file.good ≡ true)

Row-cases {ℓ} :
    {E : Type ℓ} (r : Row E) → ((x : E) × (r ≡ entry x)) ⊎ (r ≡ skip) ⊎ (r ≡ bad) ⊎ (r ≡ stuck)
Row-cases (entry x) = inl (x, refl)
Row-cases skip = inr (inl refl)
Row-cases bad = inr (inr (inl refl))
Row-cases stuck = inr (inr (inr refl))

module _ {ℓ κ} {E : Type ℓ} {M : Type κ} (put : E → M → M) where
  -- The rows in order, up to one that throws.
  unfoldable pub run_rows : List (Row E) → M → Loaded M
  run_rows [] m = finished true m
  run_rows (entry e ∷ rs) m = run_rows rs (put e m)
  run_rows (skip ∷ rs) m = run_rows rs m
  run_rows (bad ∷ rs) m = raised m
  run_rows (stuck ∷ rs) m = unfinished

module _ {ℓ κ} {E : Type ℓ} {M : Type κ} (row : Bytes → Row E) (put : E → M → M) where
  abbrev Reads : ℕ → Stream → List Bytes → Type κ
  Reads fuel s ls = (m : M) → load_loop row put fuel s m ≡ run_rows put (map (row_or_skip row) ls) m

  Reads-eof : (fuel : ℕ) (s : Bytes) → 0 < fuel → Reads fuel (record { rest = s; eof = true }) []
  unfolding load_loop run_rows
  Reads-eof zero s h m = absurd (omega arith)
  Reads-eof (suc fuel) s h m = refl

  -- One round takes the first line and goes on with the others.
  Reads-line :
      (fuel : ℕ) (s : Bytes) (ls : List Bytes)
      → Reads fuel (getline (record { rest = s; eof = false })).1 ls
      → Reads (suc fuel) (record { rest = s; eof = false }) ((cut_line s).head ∷ ls)
  unfolding load_loop run_rows getline
  Reads-line fuel s ls later m = elim (Row-cases (row_or_skip row (cut_line s).head)) [
    | inl (x, e) ↦ rw (e, load_loop) (later (put x m))
    | inr (inl e) ↦ rw (e, load_loop) (later m)
    | inr (inr (inl e)) ↦ rw (e, load_loop)
    | inr (inr (inr e)) ↦ rw (e, load_loop)
  ]

  load_loop-run_rows :
      (fuel : ℕ) (s : Bytes)
      → length s + 1 < fuel
      → Reads fuel (record { rest = s; eof = false }) (lines s)
  unfolding getline
  load_loop-run_rows zero s h = absurd (omega arith)
  load_loop-run_rows (suc fuel) s h = rw (lines-cut s) (
      Reads-line fuel s _ (elim (Bool-cases (cut_line s).ended) [
        | inl e ↦
            rw e (load_loop-run_rows fuel (cut_line s).tail (omega (arith, cut_line-length s e)))
        | inr e ↦ rw e (Reads-eof fuel (cut_line s).tail (omega arith))
      ]))

  -- `load` of a regular file that opens runs through all its lines in order, and the fuel in the
  -- definition suffices: it stores what the lines give up to the first one that throws.
  pub load-run_rows :
      (file : File) (m : M)
      → IsReadable file
      → load row put file m ≡ run_rows put (map (row_or_skip row) (lines file.content)) m
  unfolding load
  load-run_rows file m (a, b, c) =
      rw (a, b, c) (load_loop-run_rows (length file.content + 2) file.content (omega arith) m)

  -- `load` of anything else returns `false` and leaves the dictionary as it was.
  pub load_unreadable :
      (file : File) (m : M)
      → (file.stat_ok && file.regular && file.good) ≡ false
      → load row put file m ≡ finished false m
  unfolding load
  load_unreadable file m h = ground arith
