-- ===== src/DesignModel/SimpleFactory.antt =====
-- example/design_model/simple_factory/ and simple_factory_main.cpp: a product by its name.
use cpp_freshman.Prelude.{
  false, Option, none, some, [], ◌∷◌, ◌++◌, ◌≡◌, ◌⊎◌, inl, inr, refl, sym, ap, Bytes, ascii,
  same_text, same_text_iff, Bool-cases, if◌then◌else◌,
}
use cpp_freshman.DesignModel.{Lines}

pub data Product : Type 0 where
  product_a product_b : Product

-- `Product::who` of the two classes.
unfoldable pub who : Product → Lines
who product_a = ascii "I am ProductA" ∷ []
who product_b = ascii "I am ProductB" ∷ []

-- `Factory::create`: the product, `none` for a null pointer, and what it prints.
unfoldable pub create : Bytes → Option Product × Lines
unfolding same_text
create name =
    if same_text name (ascii "ProductA")
    then (some product_a, [])
    else if same_text name (ascii "ProductB")
    then (some product_b, [])
    else (none, ascii "No such product" ∷ [])

-- Either the name is that of a class, and then the product of that name comes back, which says so,
-- and nothing is printed; or it is not, and then a null pointer comes back with a message.
pub create-who :
    (name : Bytes)
    → ((p : Product) × (create name ≡ (some p, [])) × (who p ≡ (ascii "I am " ++ name) ∷ []))
      ⊎ ((create name ≡ (none, ascii "No such product" ∷ []))
          × (same_text name (ascii "ProductA") ≡ false)
          × (same_text name (ascii "ProductB") ≡ false))
unfolding create who
create-who name = elim (Bool-cases (same_text name (ascii "ProductA"))) [
  | inl e ↦ inl (
    product_a,
    rw e refl,
    ap (λ n. (ascii "I am " ++ n) ∷ []) (sym ((same_text_iff name (ascii "ProductA")).0 e)),
  )
  | inr e ↦ elim (Bool-cases (same_text name (ascii "ProductB"))) [
    | inl f ↦ inl (
      product_b,
      rw (e, f) refl,
      ap (λ n. (ascii "I am " ++ n) ∷ []) (sym ((same_text_iff name (ascii "ProductB")).0 f)),
    )
    | inr f ↦ inr (rw (e, f) refl, e, f)
  ]
]
