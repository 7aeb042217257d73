-- ===== src/LockFreeQueue/Keep.antt =====
-- What a step of one thread of `LockFreeQueue` keeps for the others.
use cpp_freshman.Prelude.{ℕ, suc, ◌≤◌, ◌≡◌, ◌≢◌, refl, sym, ap, ◌∙◌, arith}
use cpp_freshman.LockFreeQueue.{
  Memory, Point, idle, input_top, input_test, input_link, input_argument, input_help, input_advance,
  output_top, output_next, output_take, output_read, update,
}
use cpp_freshman.LockFreeQueue.Atomic.{given, took}
use cpp_freshman.LockFreeQueue.Shape.{Ghost, last, At, Follows, IsList, IsSound, status_of, Extends}

module _ (g g' : Ghost) (kept : (k : ℕ) → k ≤ last g → g'.chain k ≡ g.chain k) where
  At-later : (bound bound' a : ℕ) → bound ≤ last g → bound ≤ bound' → At g bound a → At g' bound' a
  At-later bound bound' a inside later x = record {
    position = x.position;
    within = ground arith;
    there = kept x.position (ground arith) ∙ x.there;
  }

  Follows-later : (a b : ℕ) → last g ≤ last g' → Follows g a b → Follows g' a b
  Follows-later a b later x = record {
    position = x.position;
    within = ground arith;
    before = kept x.position (ground arith) ∙ x.before;
    after = kept (suc x.position) (ground arith) ∙ x.after;
  }

module _ {V : Type 0} (m m' : Memory V) (g g' : Ghost) (i : ℕ) where
  -- The node that a thread has read is still followed by the same node.
  next_later : (a : ℕ) → Extends i m g m' g' → Follows g a (m.next a) → Follows g' a (m'.next a)
  next_later a e x =
      rw (sym (ap m'.next x.before) ∙ e.next_kept x.position x.within ∙ ap m.next x.before)
        (Follows-later g g' e.chain_kept a (m.next a) e.last_later x)

  pub IsSound-Extends :
      Extends i m g m' g'
      → IsList m g
      → (j : ℕ) → j ≢ i
      → (p : Point) → IsSound m g j p
      → IsSound m' g' j p
  unfolding IsSound
  IsSound-Extends e l j d idle x = x
  IsSound-Extends e l j d (input_top node) x = e.new_kept j node d x
  IsSound-Extends e l j d (input_test node cur) (x, y) = (
    e.new_kept j node d x,
    At-later g g' e.chain_kept g.tail_at g'.tail_at cur l.tail_within e.tail_later y,
  )
  IsSound-Extends e l j d (input_link node cur) (x, y) = (
    e.new_kept j node d x,
    At-later g g' e.chain_kept g.tail_at g'.tail_at cur l.tail_within e.tail_later y,
  )
  IsSound-Extends e l j d (input_argument node cur) (x, y) =
      (e.new_kept j node d x, next_later cur e y)
  IsSound-Extends e l j d (input_help node cur next) (x, y) =
      (e.new_kept j node d x, Follows-later g g' e.chain_kept cur next e.last_later y)
  IsSound-Extends e l j d (input_advance node cur) x =
      Follows-later g g' e.chain_kept cur node e.last_later x
  IsSound-Extends e l j d output_top x = x
  IsSound-Extends e l j d (output_next first) x =
      At-later g g' e.chain_kept g.head_at g'.head_at first (ground arith) e.head_later x
  IsSound-Extends e l j d (output_take first next) x =
      Follows-later g g' e.chain_kept first next e.last_later x
  IsSound-Extends e l j d (output_read next) x =
      At-later g g' e.chain_kept (last g) (last g') next (ground arith) e.last_later x

  pub status_of-Extends :
      Extends i m g m' g'
      → IsList m g
      → (j : ℕ) → (p : Point) → IsSound m g j p
      → status_of m' p ≡ status_of m p
  unfolding IsSound status_of
  status_of-Extends e l j idle x = refl
  status_of-Extends e l j (input_top node) x = ap given (e.info_kept node x.used)
  status_of-Extends e l j (input_test node cur) (x, y) = ap given (e.info_kept node x.used)
  status_of-Extends e l j (input_link node cur) (x, y) = ap given (e.info_kept node x.used)
  status_of-Extends e l j (input_argument node cur) (x, y) = ap given (e.info_kept node x.used)
  status_of-Extends e l j (input_help node cur next) (x, y) = ap given (e.info_kept node x.used)
  status_of-Extends e l j (input_advance node cur) x = refl
  status_of-Extends e l j output_top x = refl
  status_of-Extends e l j (output_next first) x = refl
  status_of-Extends e l j (output_take first next) x = refl
  status_of-Extends e l j (output_read next) x =
      ap took (e.info_kept next (ground (arith, l.used x.position x.within)))

pub update-same : {A : Type 0} → (f : ℕ → A) → (i j : ℕ) → (x : A) → j ≡ i → update f i x j ≡ x
update-same f i j x p = ground arith

pub update-other : {A : Type 0} → (f : ℕ → A) → (i j : ℕ) → (x : A) → j ≢ i → update f i x j ≡ f j
update-other f i j x d = ground arith
