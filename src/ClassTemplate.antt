-- ===== src/ClassTemplate.antt =====
-- example/googletest/class_template.{h,cpp}: the class template `CommonFileDict` with its full and
-- partial specialisations, over its `kv_container`. `plus` is the `+` of the values.
pub mod Sums
pub mod Tests
use cpp_freshman.Prelude.{Bool, true, false, not, Option, none, some, List, [], ◌∷◌, Eq}
use mathlib.Core.Option
use cpp_freshman.FileDict.{find, assign}

-- The general template, and the specialisations for a key `std::string` in a `std::map`: the one for
-- `int` values has the same bodies, and the one for other values has an `insert` without a body.
pub data Template : Type 0 where
  general full partial : Template

-- A call that changes the container.
pub data Change {ℓ κ} (K : Type ℓ) (V : Type κ) : Type (ℓ ⊔ κ) where
  inserted : K → V → Change K V
  added : K → V → Change K V

module _ {ℓ κ} {K : Type ℓ} {V : Type κ} ⦃e : Eq K⦄ where
  unfoldable pub insert : Template → K → V → List (K × V) → List (K × V)
  insert general k v kv_container = assign (k, v) kv_container
  insert full k v kv_container = assign (k, v) kv_container
  insert partial k v kv_container = kv_container

  -- The same body in all three.
  unfoldable pub add : (V → V → V) → K → V → List (K × V) → List (K × V)
  unfolding find assign
  add plus k v kv_container = elim (find k kv_container) [
    | none ↦ assign (k, v) kv_container
    | some w ↦ assign (k, plus w v) kv_container
  ]

  -- `get_value` and `is_exist`, which the general template alone has.
  unfoldable pub get_value : V → List (K × V) → K → V
  unfolding find
  get_value missing kv_container k = elim (find k kv_container) [ none ↦ missing | some v ↦ v ]

  unfoldable pub is_exist : List (K × V) → K → Bool
  unfolding find
  is_exist kv_container k = elim (find k kv_container) [ none ↦ false | some v ↦ true ]

  unfoldable pub change : Template → (V → V → V) → Change K V → List (K × V) → List (K × V)
  unfolding insert add
  change t plus (inserted k v) kv_container = insert t k v kv_container
  change t plus (added k v) kv_container = add plus k v kv_container

  unfoldable pub change_all :
      Template → (V → V → V) → List (Change K V) → List (K × V) → List (K × V)
  unfolding change
  change_all t plus [] kv_container = kv_container
  change_all t plus (c ∷ cs) kv_container = change_all t plus cs (change t plus c kv_container)
