-- ===== src/FileDict/Map.antt =====
-- The maps of the dictionaries, as association lists, and the two ways to store in them.
use cpp_freshman.Prelude.{
  Option, none, some, List, [], ◌∷◌, ◌++◌, ◌≡◌, refl, sym, ap, ◌∙◌, inl, inr, Bool-cases, arith,
  if◌then◌else◌, Eq,
}
use mathlib.Core.List.{reverse, append-nil, append_assoc, reverse-append}
use mathlib.Core.Path.{◌≡⟨◌⟩◌, ◌∎}

module _ {κ} {V : Type κ} where
  -- A later list counts where the earlier one has no value.
  abbrev pub or_else : Option V → Option V → Option V
  or_else none y = y
  or_else (some v) y = some v

  or_else_assoc : (x y z : Option V) → or_else (or_else x y) z ≡ or_else x (or_else y z)
  or_else_assoc none y z = refl
  or_else_assoc (some v) y z = refl

module _ {ℓ κ} {K : Type ℓ} {V : Type κ} ⦃e : Eq K⦄ where
  unfoldable pub find : K → List (K × V) → Option V
  find k [] = none
  find k ((j, v) ∷ m) = if e.beq j k then some v else find k m

  -- `m[k] = v`.
  unfoldable pub assign : K × V → List (K × V) → List (K × V)
  assign (k, v) [] = (k, v) ∷ []
  assign (k, v) ((j, w) ∷ m) = if e.beq j k then (j, v) ∷ m else (j, w) ∷ assign (k, v) m

  -- `m.emplace(k, v)`: a key that is there keeps its value.
  unfoldable pub emplace : K × V → List (K × V) → List (K × V)
  emplace (k, v) [] = (k, v) ∷ []
  emplace (k, v) ((j, w) ∷ m) = if e.beq j k then (j, w) ∷ m else (j, w) ∷ emplace (k, v) m

  unfoldable pub put_all :
      (K × V → List (K × V) → List (K × V)) → List (K × V) → List (K × V) → List (K × V)
  put_all put [] m = m
  put_all put (x ∷ xs) m = put_all put xs (put x m)

  find-append : (j : K) (xs ys : List (K × V)) → find j (xs ++ ys) ≡ or_else (find j xs) (find j ys)
  unfolding find
  find-append j [] ys = refl
  find-append j ((i, w) ∷ xs) ys = elim (Bool-cases (e.beq i j)) [
    | inl h ↦ rw h refl
    | inr h ↦ rw h (find-append j xs ys)
  ]

  pub find-assign :
      (k j : K) (v : V) (m : List (K × V))
      → find j (assign (k, v) m) ≡ or_else (find j ((k, v) ∷ [])) (find j m)
  unfolding find assign
  find-assign k j v [] = ground arith
  find-assign k j v ((i, w) ∷ m) =
      ground (arith, e.beq_iff k j, e.beq_iff i k, e.beq_iff i j, find-assign k j v m)

  find-emplace :
      (k j : K) (v : V) (m : List (K × V))
      → find j (emplace (k, v) m) ≡ or_else (find j m) (find j ((k, v) ∷ []))
  unfolding find emplace
  find-emplace k j v [] = ground arith
  find-emplace k j v ((i, w) ∷ m) =
      ground (arith, e.beq_iff k j, e.beq_iff i k, e.beq_iff i j, find-emplace k j v m)

  -- Assignments in a row: the last entry of a key wins.
  pub find-put_all-assign :
      (j : K) (es m : List (K × V)) → find j (put_all assign es m) ≡ find j (reverse es ++ m)
  unfolding put_all
  find-put_all-assign j [] m = refl
  find-put_all-assign j ((k, v) ∷ es) m =
      find j (put_all assign es (assign (k, v) m))
      ≡⟨ find-put_all-assign j es (assign (k, v) m) ⟩ find j (reverse es ++ assign (k, v) m)
      ≡⟨ find-append j (reverse es) (assign (k, v) m) ⟩
        or_else (find j (reverse es)) (find j (assign (k, v) m))
      ≡⟨ ap (or_else (find j (reverse es)))
          (find-assign k j v m ∙ sym (find-append j ((k, v) ∷ []) m)) ⟩
        or_else (find j (reverse es)) (find j ((k, v) ∷ m))
      ≡⟨ sym (find-append j (reverse es) ((k, v) ∷ m)) ⟩ find j (reverse es ++ (k, v) ∷ m)
      ≡⟨ ap (find j) (sym (append_assoc (reverse es) ((k, v) ∷ []) m)) ⟩
        find j ((reverse es ++ (k, v) ∷ []) ++ m)
      ≡⟨ ap (λ (l : List (K × V)). find j (l ++ m)) (sym (reverse-append ((k, v) ∷ []) es)) ⟩
        find j (reverse ((k, v) ∷ es) ++ m) ∎

  -- Emplacements in a row: the first entry of a key wins, and one that was there before.
  pub find-put_all-emplace :
      (j : K) (es m : List (K × V)) → find j (put_all emplace es m) ≡ find j (m ++ es)
  unfolding put_all
  find-put_all-emplace j [] m = rw append-nil
  find-put_all-emplace j ((k, v) ∷ es) m =
      find j (put_all emplace es (emplace (k, v) m))
      ≡⟨ find-put_all-emplace j es (emplace (k, v) m) ⟩ find j (emplace (k, v) m ++ es)
      ≡⟨ find-append j (emplace (k, v) m) es ⟩ or_else (find j (emplace (k, v) m)) (find j es)
      ≡⟨ rw (find-emplace k j v m) (or_else_assoc (find j m) (find j ((k, v) ∷ [])) (find j es)) ⟩
        or_else (find j m) (or_else (find j ((k, v) ∷ [])) (find j es))
      ≡⟨ ap (or_else (find j m)) (sym (find-append j ((k, v) ∷ []) es))
        ∙ sym (find-append j m ((k, v) ∷ es)) ⟩
        find j (m ++ (k, v) ∷ es) ∎
