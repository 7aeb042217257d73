-- ===== src/MySharedPtr/Release.antt =====
-- What `release` does where each object that is alive has exactly one owner.
use cpp_freshman.Prelude.{ℕ, false, Option, none, some, ◌≡◌, ◌≢◌, inl, inr, arith, Option-cases}
use cpp_freshman.MySharedPtr.{Heap, MySharedPtr, set, delete_object, delete_count, release}
use cpp_freshman.MySharedPtr.Owned.{Owns, IsNull, IsOwned, set-some, Owns-change, drop-IsOwned}

module _ (h : Heap) where
  -- The heap after the only owner of an object has released it.
  abbrev pub released : MySharedPtr → Heap
  released v = record h {
    object = set h.object v.ptr false;
    count = set (set h.count v.used_count (some 0)) v.used_count none;
  }

  pub release-Owns : (v : MySharedPtr) → Owns h v → release h v ≡ some (released v)
  unfolding release delete_object delete_count
  release-Owns v w = rw (w.counted, release) (ground (arith, w.positive, w.behind, w.alive))

  pub release-IsNull : (v : MySharedPtr) → IsNull v → release h v ≡ some h
  unfolding release
  release-IsNull v z = elim (Option-cases (h.count v.used_count)) [
    | inl e ↦ rw (e, release) (ground (arith, z.no_count))
    | inr (n, e) ↦ rw (e, release) (ground (arith, z.no_count))
  ]

module _ (h : Heap) (vars : ℕ → Option MySharedPtr) (o : IsOwned h vars) where
  released-IsOwned :
      (x : ℕ) (v : MySharedPtr)
      → vars x ≡ some v
      → Owns h v
      → IsOwned (released h v) (set vars x none)
  released-IsOwned x v e w = record {
    valid = (λ y u p. elim (set-some vars x none y u p) [
      | inl (f, q) ↦ ground arith
      | inr (f, q) ↦ elim (o.valid y u q) [
        | inl z ↦ inl z
        | inr z ↦
            let apart : v.ptr ≢ u.ptr =
              λ t. f (o.unique x y v u e q (ground (arith, w.positive)) t) in
            inr (
              Owns-change h (released h v) u (ground (arith, apart))
                (ground (arith, apart, w.behind, z.behind)) z)
      ]
    ]);
    unique = (λ y y' u w p q d f. elim (set-some vars x none y u p) [
      | inl (g, r) ↦ ground arith
      | inr (g, r) ↦ elim (set-some vars x none y' w q) [
        | inl (g', r') ↦ ground arith
        | inr (g', r') ↦ o.unique y y' u w r r' d f
      ]
    ]);
    owned = (λ a p.
        let u = o.owned a (ground arith) in
        record {
          var = u.var;
          value = u.value;
          there = ground (arith, u.there, u.points, e);
          points = u.points;
        });
    used = (λ a p. o.used a (ground arith));
    fresh = o.fresh;
    none_at_null = ground (arith, o.none_at_null);
  }

  -- `release` of a variable ends well, and without the variable nothing else has changed.
  pub record Ends (x : ℕ) (v : MySharedPtr) : Type 0 where
    pub heap : Heap
    pub ends : release h v ≡ some heap
    pub left : IsOwned heap (set vars x none)

  pub release-Ends : (x : ℕ) (v : MySharedPtr) → vars x ≡ some v → Ends x v
  release-Ends x v e = elim (o.valid x v e) [
    | inl z ↦ record { heap = h; ends = release-IsNull h v z; left = drop-IsOwned h vars o x v e z }
    | inr w ↦ record {
      heap = released h v;
      ends = release-Owns h v w;
      left = released-IsOwned x v e w;
    }
  ]
