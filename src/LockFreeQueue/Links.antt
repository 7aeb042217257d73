-- ===== src/LockFreeQueue/Links.antt =====
-- The two steps of `LockFreeQueue` that change which values are in the queue: a node is linked, and
-- `head` moves on.
use cpp_freshman.Prelude.{
  ℕ, zero, suc, ◌+◌, ◌-◌, ◌≤◌, ◌<◌, [], ◌∷◌, ◌++◌, ◌≡◌, ◌≢◌, refl, sym, ap, ◌∙◌, arith, ◌⊎◌, inl,
  inr,
}
use cpp_freshman.LockFreeQueue.{Memory, update}
use cpp_freshman.LockFreeQueue.Shape.{Ghost, last, contents, At, Follows, IsList, IsNew, Extends}

pub le_cases : (a b : ℕ) → a ≤ b → (a ≡ b) ⊎ (a < b)
le_cases a b h = ground arith

module _ {V : Type 0} where
  pub contents-cong :
      (f f' : ℕ → V) (c c' : ℕ → ℕ) (k n : ℕ)
      → ((j : ℕ) → j ≤ k + n → f' (c' j) ≡ f (c j))
      → contents f' c' k n ≡ contents f c k n
  unfolding contents
  contents-cong f f' c c' k zero same = refl
  contents-cong f f' c c' k (suc n) same =
      rw
        (
          same (suc k) (ground arith),
          contents-cong f f' c c' (suc k) n (λ j b. same j (ground arith)),
        )
        refl

  contents-cons :
      (f : ℕ → V) (c : ℕ → ℕ) (k n : ℕ)
      → 0 < n
      → contents f c k n ≡ f (c (suc k)) ∷ contents f c (suc k) (n - 1)
  unfolding contents
  contents-cons f c k zero h = ground arith
  contents-cons f c k (suc n) h = ground arith

  contents-snoc :
      (f : ℕ → V) (c : ℕ → ℕ) (k n : ℕ)
      → contents f c k (suc n) ≡ contents f c k n ++ f (c (suc (k + n))) ∷ []
  unfolding contents
  contents-snoc f c k zero = ground arith
  contents-snoc f c k (suc n) = ground (arith, contents-snoc f c (suc k) n)

module _ {V : Type 0} (m : Memory V) (g : Ghost) (i : ℕ) (l : IsList m g) where
  -- A node without a next one is the last.
  pub At-last :
      (bound a : ℕ) → bound ≤ last g → (x : At g bound a) → m.next a ≡ 0 → x.position ≡ last g
  At-last bound a inside x e = elim (le_cases x.position (last g) (ground (arith, x.within))) [
    | inl p ↦ p
    | inr b ↦ ground (
      arith,
      l.linked x.position b,
      l.positive (suc x.position) (ground arith),
      ap m.next x.there,
    )
  ]

  -- A node with a next one is followed by it.
  pub At-Follows :
      (bound a : ℕ) → bound ≤ last g → At g bound a → m.next a ≢ 0 → Follows g a (m.next a)
  At-Follows bound a inside x d = elim (le_cases x.position (last g) (ground (arith, x.within))) [
    | inl p ↦ elim (d (ap m.next (sym x.there) ∙ ap (λ k. m.next (g.chain k)) p ∙ l.ends)) [ ]
    | inr b ↦ record {
      position = x.position;
      within = b;
      before = x.there;
      after = sym (l.linked x.position b) ∙ ap m.next x.there;
    }
  ]

  abbrev pub link : ℕ → ℕ → Memory V
  link cur node = record m { next = update m.next cur node }

  abbrev pub grows : ℕ → Ghost
  grows node = record g { chain = update g.chain (suc (last g)) node; size = suc g.size }

  module _ (cur node : ℕ) (at : At g g.tail_at cur) (free : m.next cur ≡ 0)
      (new : IsNew m g i node) where
    cur_last : g.chain (last g) ≡ cur
    cur_last = ap g.chain (sym (At-last g.tail_at cur l.tail_within at free)) ∙ at.there

    pub link-Follows : Follows (grows node) cur node
    link-Follows = record {
      position = last g;
      within = ground arith;
      before = ground (arith, cur_last);
      after = ground arith;
    }

    link-linked :
        (k : ℕ)
        → k < last (grows node)
        → (link cur node).next ((grows node).chain k) ≡ (grows node).chain (suc k)
    link-linked k b = elim (le_cases k (last g) (ground arith)) [
      | inl p ↦ ground (arith, cur_last, ap g.chain p)
      | inr b' ↦
          ground
            (arith, l.linked k b', cur_last, l.distinct k (last g) (ground arith) (ground arith))
    ]

    link-distinct :
        (j k : ℕ)
        → j ≤ last (grows node)
        → k ≤ last (grows node)
        → (grows node).chain j ≡ (grows node).chain k
        → j ≡ k
    link-distinct j k b c e = elim (le_cases j (suc (last g)) (ground arith)) [
      | inl p ↦ elim (le_cases k (suc (last g)) (ground arith)) [
        | inl q ↦ p ∙ sym q
        | inr c' ↦ ground (arith, new.apart k (ground arith))
      ]
      | inr b' ↦ elim (le_cases k (suc (last g)) (ground arith)) [
        | inl q ↦ ground (arith, new.apart j (ground arith))
        | inr c' ↦ ground (arith, l.distinct j k (ground arith) (ground arith))
      ]
    ]

    pub link-IsList : IsList (link cur node) (grows node)
    link-IsList = record {
      linked = link-linked;
      ends = ground (arith, new.unlinked, new.apart (last g) (ground arith), cur_last);
      positive = (λ k b. elim (le_cases k (suc (last g)) (ground arith)) [
        | inl p ↦ ground (arith, new.made)
        | inr c ↦ ground (arith, l.positive k (ground arith))
      ]);
      used = (λ k b. elim (le_cases k (suc (last g)) (ground arith)) [
        | inl p ↦ ground (arith, new.used)
        | inr c ↦ ground (arith, l.used k (ground arith))
      ]);
      distinct = link-distinct;
      head_there = ground (arith, l.head_there);
      tail_there = ground (arith, l.tail_there, l.tail_within);
      tail_within = ground (arith, l.tail_within);
      tail_near = ground (arith, At-last g.tail_at cur l.tail_within at free, at.within);
    }

    pub link-Extends : Extends i m g (link cur node) (grows node)
    link-Extends = record {
      chain_kept = (λ k b. ground arith);
      head_later = ground arith;
      tail_later = ground arith;
      last_later = ground arith;
      info_kept = (λ a b. refl);
      next_kept =
          (λ k b. ground (arith, cur_last, l.distinct k (last g) (ground arith) (ground arith)));
      new_kept = (λ j a d x. record {
        made = x.made;
        used = x.used;
        unlinked = ground (arith, x.unlinked, x.apart (last g) (ground arith), cur_last);
        apart = (λ k b. elim (le_cases k (suc (last g)) (ground arith)) [
          | inl p ↦ ground (arith, x.owned, new.owned, ap g.owner)
          | inr c ↦ ground (arith, x.apart k (ground arith))
        ]);
        owned = x.owned;
      });
    }

    pub link-contents :
        contents m.log_info (grows node).chain g.head_at (suc g.size)
        ≡ contents m.log_info g.chain g.head_at g.size ++ m.log_info node ∷ []
    link-contents =
        contents-snoc m.log_info (grows node).chain g.head_at g.size
        ∙ rw
            (contents-cong m.log_info m.log_info g.chain (grows node).chain g.head_at g.size
              (λ j b. ground arith))
            (ground arith)

  abbrev pub moves_head : ℕ → Memory V
  moves_head next = record m { head = next }

  abbrev pub shrinks : Ghost
  shrinks = record g { head_at = suc g.head_at; size = g.size - 1 }

  module _ (first next : ℕ) (x : Follows g first next) (won : m.head ≡ first) where
    take-at : x.position ≡ g.head_at
    take-at =
        l.distinct x.position g.head_at (ground (arith, x.within)) (ground arith)
          (x.before ∙ sym won ∙ l.head_there)

    take-last : last shrinks ≡ last g
    take-last = ground (arith, x.within, take-at)

    take-node : g.chain (suc g.head_at) ≡ next
    take-node = ap (λ k. g.chain (suc k)) (sym take-at) ∙ x.after

    pub take-IsList : IsList (moves_head next) shrinks
    take-IsList = record {
      linked = (λ k b. l.linked k (ground (arith, take-last)));
      ends = rw take-last l.ends;
      positive = (λ k b. l.positive k (ground (arith, take-last)));
      used = (λ k b. l.used k (ground (arith, take-last)));
      distinct =
          (λ j k b c. l.distinct j k (ground (arith, take-last)) (ground (arith, take-last)));
      head_there = sym take-node;
      tail_there = l.tail_there;
      tail_within = ground (arith, take-last, l.tail_within);
      tail_near = ground (arith, take-last, l.tail_near);
    }

    pub take-Extends : Extends i m g (moves_head next) shrinks
    take-Extends = record {
      chain_kept = (λ k b. refl);
      head_later = ground arith;
      tail_later = ground arith;
      last_later = ground (arith, take-last);
      info_kept = (λ a b. refl);
      next_kept = (λ k b. refl);
      new_kept = (λ j a d y. record {
        made = y.made;
        used = y.used;
        unlinked = y.unlinked;
        apart = (λ k b. y.apart k (ground (arith, take-last)));
        owned = y.owned;
      });
    }

    pub take-At : At shrinks (last shrinks) next
    take-At = record {
      position = suc g.head_at;
      within = ground (arith, take-last, x.within, take-at);
      there = take-node;
    }

    pub take-contents :
        contents m.log_info g.chain g.head_at g.size
        ≡ m.log_info next ∷ contents m.log_info g.chain (suc g.head_at) (g.size - 1)
    unfolding contents
    take-contents =
        contents-cons m.log_info g.chain g.head_at g.size (ground (arith, x.within, take-at))
        ∙ ap (λ a. m.log_info a ∷ contents m.log_info g.chain (suc g.head_at) (g.size - 1))
            take-node
