-- ===== src/MySharedPtr/Owned.antt =====
-- The heap and the variables of programs that only move `MySharedPtr`s, with the owners of each
-- object.
use cpp_freshman.Prelude.{
  ℕ, suc, ◌<◌, true, false, Option, none, some, ◌≡◌, ◌≢◌, sym, ◌∙◌, ◌⊎◌, inl, inr, ◌==◌, arith,
  Bool-cases,
}
use cpp_freshman.MySharedPtr.{Heap, MySharedPtr, null, set, make}

-- A pointer to an object with its count of 1, which stands behind it.
pub record Owns (h : Heap) (v : MySharedPtr) : Type 0 where
  pub positive : 0 < v.ptr
  pub behind : v.used_count ≡ suc v.ptr
  pub alive : h.object v.ptr ≡ true
  pub counted : h.count v.used_count ≡ some 1

pub record IsNull (v : MySharedPtr) : Type 0 where
  pub no_object : v.ptr ≡ 0
  pub no_count : v.used_count ≡ 0

pub record Owner (vars : ℕ → Option MySharedPtr) (a : ℕ) : Type 0 where
  pub var : ℕ
  pub value : MySharedPtr
  pub there : vars var ≡ some value
  pub points : value.ptr ≡ a

pub record IsOwned (h : Heap) (vars : ℕ → Option MySharedPtr) : Type 0 where
  pub valid : (x : ℕ) → (v : MySharedPtr) → vars x ≡ some v → IsNull v ⊎ Owns h v
  pub unique :
      (x y : ℕ) (v w : MySharedPtr)
      → vars x ≡ some v
      → vars y ≡ some w
      → v.ptr ≢ 0
      → v.ptr ≡ w.ptr
      → x ≡ y
  pub owned : (a : ℕ) → h.object a ≡ true → Owner vars a
  pub used : (a : ℕ) → h.object a ≡ true → a < h.unused
  pub fresh : 0 < h.unused
  pub none_at_null : h.object 0 ≡ false

module _ (h : Heap) (vars : ℕ → Option MySharedPtr) (o : IsOwned h vars) where
  pub IsOwned-ext :
      (vars' : ℕ → Option MySharedPtr) → ((x : ℕ) → vars' x ≡ vars x) → IsOwned h vars'
  IsOwned-ext vars' e = record {
    valid = (λ x v p. o.valid x v (sym (e x) ∙ p));
    unique = (λ x y v w p q. o.unique x y v w (sym (e x) ∙ p) (sym (e y) ∙ q));
    owned = (λ a p.
        let w = o.owned a p in
        record { var = w.var; value = w.value; there = e w.var ∙ w.there; points = w.points });
    used = o.used;
    fresh = o.fresh;
    none_at_null = o.none_at_null;
  }

pub set-some :
    {A : Type 0}
    → (f : ℕ → Option A) → (a : ℕ) → (x : Option A) → (b : ℕ) → (v : A) → set f a x b ≡ some v
    → ((a ≡ b) × (x ≡ some v)) ⊎ ((a ≢ b) × (f b ≡ some v))
set-some f a x b v e = ground arith

pub Owns-change :
    (h h' : Heap) (v : MySharedPtr)
    → h'.object v.ptr ≡ h.object v.ptr
    → h'.count v.used_count ≡ h.count v.used_count
    → Owns h v
    → Owns h' v
Owns-change h h' v p q o = record {
  positive = o.positive;
  behind = o.behind;
  alive = p ∙ o.alive;
  counted = q ∙ o.counted;
}

IsNull-null : (v : MySharedPtr) → some null ≡ some v → IsNull v
IsNull-null v e = record { no_object = ground arith; no_count = ground arith }

module _ (h : Heap) (vars : ℕ → Option MySharedPtr) (o : IsOwned h vars) where
  ptr-used : (x : ℕ) (v : MySharedPtr) → vars x ≡ some v → v.ptr < h.unused
  ptr-used x v e = elim (o.valid x v e) [
    | inl z ↦ ground (arith, z.no_object, o.fresh)
    | inr z ↦ o.used v.ptr z.alive
  ]

  -- A null pointer is declared.
  pub null-IsOwned : (x : ℕ) → vars x ≡ none → IsOwned h (set vars x (some null))
  null-IsOwned x n = record {
    valid = (λ y v p. elim (set-some vars x (some null) y v p) [
      | inl (e, q) ↦ inl (IsNull-null v q)
      | inr (d, q) ↦ o.valid y v q
    ]);
    unique = (λ y z v w p q d e. elim (set-some vars x (some null) y v p) [
      | inl (f, r) ↦ ground arith
      | inr (f, r) ↦ elim (set-some vars x (some null) z w q) [
        | inl (f', r') ↦ ground arith
        | inr (f', r') ↦ o.unique y z v w r r' d e
      ]
    ]);
    owned = (λ a p.
        let w = o.owned a p in
        record {
          var = w.var;
          value = w.value;
          there = ground (arith, w.there);
          points = w.points;
        });
    used = o.used;
    fresh = o.fresh;
    none_at_null = o.none_at_null;
  }

  -- An object is made with its count, and a variable is declared for it.
  pub make-IsOwned : (x : ℕ) → vars x ≡ none → IsOwned (make h).0 (set vars x (some (make h).1))
  unfolding make
  make-IsOwned x n = record {
    valid = (λ y v p. elim (set-some vars x (some (make h).1) y v p) [
      | inl (e, q) ↦ inr (record {
        positive = ground (arith, o.fresh);
        behind = ground arith;
        alive = ground arith;
        counted = ground arith;
      })
      | inr (d, q) ↦ elim (o.valid y v q) [
        | inl z ↦ inl z
        | inr z ↦ inr (
            Owns-change h (make h).0 v (ground (arith, o.used v.ptr z.alive))
              (ground (arith, z.behind, o.used v.ptr z.alive)) z)
      ]
    ]);
    unique = (λ y z v w p q d e. elim (set-some vars x (some (make h).1) y v p) [
      | inl (f, r) ↦ elim (set-some vars x (some (make h).1) z w q) [
        | inl (f', r') ↦ ground arith
        | inr (f', r') ↦ ground (arith, ptr-used z w r')
      ]
      | inr (f, r) ↦ elim (set-some vars x (some (make h).1) z w q) [
        | inl (f', r') ↦ ground (arith, ptr-used y v r)
        | inr (f', r') ↦ o.unique y z v w r r' d e
      ]
    ]);
    owned = (λ a p. elim (Bool-cases (h.object a)) [
      | inl e ↦
          let w = o.owned a e in
          record {
            var = w.var;
            value = w.value;
            there = ground (arith, w.there);
            points = w.points;
          }
      | inr e ↦ record { var = x; value = (make h).1; there = ground arith; points = ground arith }
    ]);
    used = (λ a p. elim (Bool-cases (h.object a)) [
      | inl e ↦ ground (arith, o.used a e)
      | inr e ↦ ground arith
    ]);
    fresh = ground arith;
    none_at_null = ground (arith, o.none_at_null, o.fresh);
  }

  moved-some :
      (x y : ℕ) (other : MySharedPtr) (z : ℕ) (v : MySharedPtr)
      → set (set vars x (some other)) y (some null) z ≡ some v
      → (null ≡ v) ⊎ (((x ≡ z) × (other ≡ v)) ⊎ ((y ≢ z) × (vars z ≡ some v)))
  moved-some x y other z v p = elim (set-some (set vars x (some other)) y (some null) z v p) [
    | inl (e, q) ↦ inl (ground arith)
    | inr (d, q) ↦ elim (set-some vars x (some other) z v q) [
      | inl (e, q') ↦ inr (inl (e, ground arith))
      | inr (d', q') ↦ inr (inr (d, q'))
    ]
  ]

  -- A variable takes what another one had, which is null then.
  pub move-IsOwned :
      (x y : ℕ) (other : MySharedPtr)
      → vars x ≡ none
      → vars y ≡ some other
      → IsOwned h (set (set vars x (some other)) y (some null))
  move-IsOwned x y other n f = record {
    valid = (λ z v p. elim (set-some (set vars x (some other)) y (some null) z v p) [
      | inl (e, q) ↦ inl (IsNull-null v q)
      | inr (d, q) ↦ elim (set-some vars x (some other) z v q) [
        | inl (e, q') ↦ o.valid y v (f ∙ q')
        | inr (d', q') ↦ o.valid z v q'
      ]
    ]);
    unique = (λ z z' v w p q d e. elim (moved-some x y other z v p) [
      | inl r ↦ ground arith
      | inr (inl (r, r')) ↦ elim (moved-some x y other z' w q) [
        | inl t ↦ ground arith
        | inr (inl (t, t')) ↦ ground arith
        | inr (inr (t, t')) ↦
            ground (arith, o.unique y z' other w f t' (ground arith) (ground arith))
      ]
      | inr (inr (r, r')) ↦ elim (moved-some x y other z' w q) [
        | inl t ↦ ground arith
        | inr (inl (t, t')) ↦
            ground (arith, o.unique z y v other r' f (ground arith) (ground arith))
        | inr (inr (t, t')) ↦ o.unique z z' v w r' t' d e
      ]
    ]);
    owned = (λ a p.
        let w = o.owned a p in
        elim (Bool-cases (w.var == y)) [
          | inl e ↦ record {
            var = x;
            value = other;
            there = ground arith;
            points = ground (arith, w.there, w.points);
          }
          | inr e ↦ record {
            var = w.var;
            value = w.value;
            there = ground (arith, w.there);
            points = w.points;
          }
        ]);
    used = o.used;
    fresh = o.fresh;
    none_at_null = o.none_at_null;
  }

  -- A null pointer leaves its scope.
  pub drop-IsOwned :
      (x : ℕ) (v : MySharedPtr) → vars x ≡ some v → IsNull v → IsOwned h (set vars x none)
  drop-IsOwned x v e z = record {
    valid = (λ y w p. elim (set-some vars x none y w p) [
      | inl (f, q) ↦ ground arith
      | inr (f, q) ↦ o.valid y w q
    ]);
    unique = (λ y y' w w' p q d f. elim (set-some vars x none y w p) [
      | inl (g, r) ↦ ground arith
      | inr (g, r) ↦ elim (set-some vars x none y' w' q) [
        | inl (g', r') ↦ ground arith
        | inr (g', r') ↦ o.unique y y' w w' r r' d f
      ]
    ]);
    owned = (λ a p.
        let w = o.owned a p in
        elim (Bool-cases (w.var == x)) [
          | inl f ↦ ground (arith, e, w.there, w.points, z.no_object, o.none_at_null)
          | inr f ↦ record {
            var = w.var;
            value = w.value;
            there = ground (arith, w.there);
            points = w.points;
          }
        ]);
    used = o.used;
    fresh = o.fresh;
    none_at_null = o.none_at_null;
  }
