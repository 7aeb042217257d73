-- ===== src/Split/Fields.antt =====
-- One round of the loop of `split_new_v1`, and the next run of the line.
use cpp_freshman.Prelude.{
  ℕ, zero, suc, ◌+◌, ◌≤◌, ◌<◌, Bool, not, none, some, [], ◌∷◌, ◌++◌, ◌≡◌, refl, ◌∙◌, inl, inr,
  arith, Option-cases, length, length-drop, take, drop, drop-drop, Bytes,
}
use mathlib.Core.List.{append_assoc, append-nil}
use cpp_freshman.Split.{find_index?}
use cpp_freshman.Split.Reference.{flush, words}

module _ (d : ℕ → Bool) where
  words-skip_none : (s : Bytes) → find_index? (λ c. not (d c)) s ≡ none → words d [] s ≡ []
  unfolding find_index? words
  words-skip_none [] h = refl
  words-skip_none (c ∷ s) h = ground (arith, words-skip_none s)

  -- The bytes before the first one that is no delimiter do not matter.
  words-skip_some :
      (s : Bytes) (k : ℕ)
      → find_index? (λ c. not (d c)) s ≡ some k
      → (words d [] s ≡ words d [] (drop k s))
        × (k < length s)
        × (find_index? (λ c. not (d c)) (drop k s) ≡ some 0)
  unfolding find_index? words
  words-skip_some [] k h = absurd (ground arith)
  words-skip_some (c ∷ s) zero h = ground arith
  words-skip_some (c ∷ s) (suc k) h = ground (arith, words-skip_some s k)

  words-run_some :
      (s cur : Bytes) (j : ℕ)
      → find_index? d s ≡ some j
      → (words d cur s ≡ flush (cur ++ take j s) ++ words d [] (drop j s)) × (j < length s)
  unfolding find_index? words
  words-run_some [] cur j h = absurd (ground arith)
  words-run_some (c ∷ s) cur zero h = ground (arith, append-nil cur)
  words-run_some (c ∷ s) cur (suc j) h =
      ground (arith, words-run_some s (cur ++ c ∷ []) j, append_assoc cur (c ∷ []) (take j s))

  words-run_none : (s cur : Bytes) → find_index? d s ≡ none → words d cur s ≡ flush (cur ++ s)
  unfolding find_index? words
  words-run_none [] cur h = ground (arith, append-nil cur)
  words-run_none (c ∷ s) cur h =
      ground (arith, words-run_none s (cur ++ c ∷ []), append_assoc cur (c ∷ []) s)

-- What one round finds in a suffix of the line: no run at all, or a run of `size` bytes after
-- `gap` delimiters.
pub data Round (d : ℕ → Bool) (s : Bytes) : Type 0 where
  blank : find_index? (λ c. not (d c)) s ≡ none → words d [] s ≡ [] → Round d s
  stop :
      (gap size : ℕ)
      → find_index? (λ c. not (d c)) s ≡ some gap
      → find_index? d (drop gap s) ≡ some size
      → gap + size ≤ length s
      → 0 < size
      → words d [] s ≡ take size (drop gap s) ∷ words d [] (drop (gap + size) s)
      → Round d s
  last :
      (gap : ℕ)
      → find_index? (λ c. not (d c)) s ≡ some gap
      → find_index? d (drop gap s) ≡ none
      → gap < length s
      → words d [] s ≡ drop gap s ∷ []
      → Round d s

size_pos :
    (d : ℕ → Bool) (s : Bytes) (size : ℕ)
    → find_index? (λ c. not (d c)) s ≡ some 0
    → find_index? d s ≡ some size
    → 0 < size
unfolding find_index?
size_pos d [] size h k = absurd (ground arith)
size_pos d (c ∷ s) zero h k = absurd (ground arith)
size_pos d (c ∷ s) (suc size) h k = omega arith

flush-take : (s : Bytes) (n : ℕ) → 0 < n → n ≤ length s → flush (take n s) ≡ take n s ∷ []
flush-take [] n h k = absurd (omega arith)
flush-take (c ∷ s) zero h k = absurd (omega arith)
flush-take (c ∷ s) (suc n) h k = refl

flush_nonempty : (s : Bytes) → 0 < length s → flush s ≡ s ∷ []
flush_nonempty [] h = absurd (omega arith)
flush_nonempty (c ∷ s) h = refl

Round-from :
    (d : ℕ → Bool) (s : Bytes) (gap : ℕ) → find_index? (λ c. not (d c)) s ≡ some gap → Round d s
Round-from d s gap found = elim (Option-cases (find_index? d rest)) [
  | inl e ↦ last gap found e inside (
      skipped.0
      ∙ words-run_none d rest [] e
      ∙ flush_nonempty rest (omega (arith, inside, length-drop gap s)))
  | inr (size, e) ↦
      let run = words-run_some d rest [] size e in
      let pos = size_pos d rest size skipped.2 e in
      stop gap size found e (omega (arith, run.1, inside, length-drop gap s)) pos (
        skipped.0
        ∙ run.0
        ∙ rw (flush-take rest size pos (omega (arith, run.1)), drop-drop size gap s) refl)
]
  where
    rest : Bytes
    rest = drop gap s

    skipped :
        (words d [] s ≡ words d [] rest)
        × (gap < length s)
        × (find_index? (λ c. not (d c)) rest ≡ some 0)
    skipped = words-skip_some d s gap found

    inside : gap < length s
    inside = skipped.1

pub round : (d : ℕ → Bool) (s : Bytes) → Round d s
round d s = elim (Option-cases (find_index? (λ c. not (d c)) s)) [
  | inl e ↦ blank e (words-skip_none d s e)
  | inr (gap, e) ↦ Round-from d s gap e
]
