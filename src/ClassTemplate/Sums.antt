-- ===== src/ClassTemplate/Sums.antt =====
-- What the container of `CommonFileDict` holds after any changes, key by key.
use cpp_freshman.Prelude.{
  Bool, true, false, Option, none, some, List, [], ◌∷◌, ◌≡◌, refl, ap, ◌∙◌, inl, inr, arith, Eq,
  if◌then◌else◌, Option-cases,
}
use mathlib.Core.Option
use cpp_freshman.FileDict.{find, find-assign}
use cpp_freshman.ClassTemplate.{
  Template, general, full, partial, Change, inserted, added, insert, add, get_value, is_exist,
  change, change_all,
}

abbrev pub is_some {κ} : {V : Type κ} → Option V → Bool
is_some none = false
is_some (some v) = true

module _ {ℓ κ} {K : Type ℓ} {V : Type κ} ⦃e : Eq K⦄ (t : Template) (plus : V → V → V) where
  -- What one key has after a change: no other key counts.
  abbrev pub one_key : K → Option V → Change K V → Option V
  one_key j had (inserted k v) = elim t [
    | general ↦ if e.beq k j then some v else had
    | full ↦ if e.beq k j then some v else had
    | partial ↦ had
  ]
  one_key j had (added k v) =
      if e.beq k j then elim had [ none ↦ some v | some w ↦ some (plus w v) ] else had

  abbrev pub one_key_all : K → Option V → List (Change K V) → Option V
  one_key_all j had [] = had
  one_key_all j had (c ∷ cs) = one_key_all j (one_key j had c) cs

  find-change :
      (j : K) (c : Change K V) (m : List (K × V))
      → find j (change t plus c m) ≡ one_key j (find j m) c
  unfolding change insert add find
  find-change j (inserted k v) m = ground (arith, find-assign k j v m)
  find-change j (added k v) m = elim (Option-cases (find k m)) [
    | inl q ↦ ground (arith, find-assign k j v m, e.beq_iff k j)
    | inr (w, q) ↦ ground (arith, find-assign k j (plus w v) m, e.beq_iff k j)
  ]

  find-change_all :
      (j : K) (cs : List (Change K V)) (m : List (K × V))
      → find j (change_all t plus cs m) ≡ one_key_all j (find j m) cs
  unfolding change_all
  find-change_all j [] m = refl
  find-change_all j (c ∷ cs) m =
      find-change_all j cs (change t plus c m)
      ∙ ap (λ had. one_key_all j had cs) (find-change j c m)

module _ {ℓ κ} {K : Type ℓ} {V : Type κ} ⦃e : Eq K⦄ (plus : V → V → V) (missing : V) where
  -- After any calls of `insert` and `add`, what the container of any of the three templates has for
  -- a key is what the calls with that key alone make of what it had: `add` adds to it or starts it,
  -- and `insert` replaces it or, in the partial specialisation, does nothing. In the general
  -- template `get_value` and `is_exist` answer accordingly.
  pub get_value-change_all :
      (j : K) (cs : List (Change K V)) (m : List (K × V))
      → ((t : Template) → find j (change_all t plus cs m) ≡ one_key_all t plus j (find j m) cs)
        × (get_value missing (change_all general plus cs m) j
            ≡ Option.get_or (one_key_all general plus j (find j m) cs) missing)
        × (is_exist (change_all general plus cs m) j
            ≡ is_some (one_key_all general plus j (find j m) cs))
  unfolding get_value is_exist
  get_value-change_all j cs m =
      let at = find-change_all general plus j cs m in
      elim (Option-cases (one_key_all general plus j (find j m) cs)) [
        | inl q ↦ (λ t. find-change_all t plus j cs m, ground (arith, q, at), ground (arith, q, at))
        | inr (v, q) ↦
            (λ t. find-change_all t plus j cs m, ground (arith, q, at), ground (arith, q, at))
      ]
