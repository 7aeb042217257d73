-- ===== src/LockFreeQueue/Moves.antt =====
-- The steps of `LockFreeQueue` that write to memory: what they make of the list, and that they keep
-- what the other threads rely on.
use cpp_freshman.Prelude.{
  ℕ, suc, ◌≡◌, refl, sym, ◌∙◌, arith, ◌==◌, if◌then◌else◌, Bool-cases, inl, inr,
}
use cpp_freshman.LockFreeQueue.{Memory, input, call, swap_tail, update}
use cpp_freshman.LockFreeQueue.Shape.{Ghost, last, Follows, IsList, IsNew, Extends}

module _ {V : Type 0} (m : Memory V) (g : Ghost) (i : ℕ) where
  pub Extends-refl : Extends i m g m g
  Extends-refl = record {
    chain_kept = (λ k b. refl);
    head_later = ground arith;
    tail_later = ground arith;
    last_later = ground arith;
    info_kept = (λ a b. refl);
    next_kept = (λ k b. refl);
    new_kept = (λ j node d x. x);
  }

  -- A new node.
  abbrev pub owns : Ghost
  owns = record g { owner = update g.owner m.unused i }

  pub call-IsList : (v : V) → IsList m g → IsList (call m i (input v)).memory owns
  unfolding call
  call-IsList v l = record {
    linked = (λ k b. ground (arith, l.linked k b, l.used k (ground arith)));
    ends = ground (arith, l.ends, l.used (last g) (ground arith));
    positive = l.positive;
    used = (λ k b. ground (arith, l.used k b));
    distinct = l.distinct;
    head_there = l.head_there;
    tail_there = l.tail_there;
    tail_within = l.tail_within;
    tail_near = l.tail_near;
  }

  pub call-IsNew : (v : V) → IsList m g → IsNew (call m i (input v)).memory owns i m.unused
  unfolding call
  call-IsNew v l = record {
    made = ground (arith, l.used 0 (ground arith));
    used = ground arith;
    unlinked = ground arith;
    apart = (λ k b. ground (arith, l.used k b));
    owned = ground arith;
  }

  pub call-Extends : (v : V) → IsList m g → Extends i m g (call m i (input v)).memory owns
  unfolding call
  call-Extends v l = record {
    chain_kept = (λ k b. refl);
    head_later = ground arith;
    tail_later = ground arith;
    last_later = ground arith;
    info_kept = (λ a b. ground arith);
    next_kept = (λ k b. ground (arith, l.used k (ground arith)));
    new_kept = (λ j node d x. record {
      made = x.made;
      used = ground (arith, x.used);
      unlinked = ground (arith, x.unlinked, x.used);
      apart = x.apart;
      owned = ground (arith, x.owned, x.used);
    });
  }

  -- `tail` moves on to the next node, or another thread has moved it.
  abbrev pub moves_tail : ℕ → Ghost
  moves_tail cur = record g { tail_at = (if m.tail == cur then suc g.tail_at else g.tail_at) }

  swap_tail-at :
      (cur to : ℕ) → IsList m g → (x : Follows g cur to) → (m.tail ≡ cur) → x.position ≡ g.tail_at
  swap_tail-at cur to l x e =
      l.distinct x.position g.tail_at (ground (arith, x.within)) l.tail_within
        (x.before ∙ sym e ∙ l.tail_there)

  pub swap_tail-IsList :
      (cur to : ℕ) → IsList m g → Follows g cur to → IsList (swap_tail m cur to) (moves_tail cur)
  unfolding swap_tail
  swap_tail-IsList cur to l x = record {
    linked = l.linked;
    ends = l.ends;
    positive = l.positive;
    used = l.used;
    distinct = l.distinct;
    head_there = l.head_there;
    tail_there = elim (Bool-cases (m.tail == cur)) [
      | inl e ↦ rw (e, sym (swap_tail-at cur to l x (ground (arith, e)))) (sym x.after)
      | inr e ↦ rw e l.tail_there
    ];
    tail_within = elim (Bool-cases (m.tail == cur)) [
      | inl e ↦ ground (arith, swap_tail-at cur to l x (ground (arith, e)), x.within)
      | inr e ↦ rw e l.tail_within
    ];
    tail_near = elim (Bool-cases (m.tail == cur)) [
      | inl e ↦ ground (arith, l.tail_near)
      | inr e ↦ rw e l.tail_near
    ];
  }

  pub swap_tail-IsNew :
      (cur to j node : ℕ) → IsNew m g j node → IsNew (swap_tail m cur to) (moves_tail cur) j node
  unfolding swap_tail
  swap_tail-IsNew cur to j node x = record {
    made = x.made;
    used = x.used;
    unlinked = x.unlinked;
    apart = x.apart;
    owned = x.owned;
  }

  pub swap_tail-Extends : (cur to : ℕ) → Extends i m g (swap_tail m cur to) (moves_tail cur)
  unfolding swap_tail
  swap_tail-Extends cur to = record {
    chain_kept = (λ k b. refl);
    head_later = ground arith;
    tail_later = ground arith;
    last_later = ground arith;
    info_kept = (λ a b. refl);
    next_kept = (λ k b. refl);
    new_kept = (λ j node d x. swap_tail-IsNew cur to j node x);
  }
