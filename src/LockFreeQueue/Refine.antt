-- ===== src/LockFreeQueue/Refine.antt =====
-- A step of `LockFreeQueue` beside the steps of the atomic queue.
use cpp_freshman.Prelude.{
  ℕ, suc, ◌-◌, List, [], ◌∷◌, ◌++◌, ◌≡◌, ◌≢◌, refl, sym, ap, ◌∙◌, arith, ◌⊎◌, inl, inr,
}
use cpp_freshman.LockFreeQueue.{
  Memory, Point, idle, input_top, input_advance, output_read, Event, return_input, return_output,
  input, Step, call, swap_tail, update,
}
use cpp_freshman.LockFreeQueue.Atomic.{
  quiet, given, put, asking, took, Atomic, becomes, holds, Shows, calls_input, puts, returns_input,
  takes, finds_none, returns_output,
}
use cpp_freshman.LockFreeQueue.Shape.{
  Ghost, contents, At, Follows, IsList, IsNew, IsSound, status_of, Extends, Simulates,
}
use cpp_freshman.LockFreeQueue.Keep.{IsSound-Extends, status_of-Extends, update-same, update-other}
use cpp_freshman.LockFreeQueue.Moves.{
  Extends-refl, owns, call-IsList, call-IsNew, call-Extends, moves_tail, swap_tail-IsList,
  swap_tail-Extends,
}
use cpp_freshman.LockFreeQueue.Links.{
  At-last, link, grows, link-Follows, link-IsList, link-Extends, link-contents, moves_head, shrinks,
  take-IsList, take-Extends, take-At, take-contents, contents-cong,
}

same_or_other : (j i : ℕ) → (j ≡ i) ⊎ (j ≢ i)
same_or_other j i = ground arith

module _ {V : Type 0} (m : Memory V) (threads : ℕ → Point) (g : Ghost) (a : Atomic V)
    (s : Simulates m threads g a) (i : ℕ) where
  -- A step of thread `i` that its own point and the others' survive.
  Simulates-step :
      (m' : Memory V) (g' : Ghost) (a' : Atomic V) (p : Point)
      → Extends i m g m' g'
      → IsList m' g'
      → IsSound m' g' i p
      → a'.status i ≡ status_of m' p
      → ((j : ℕ) → j ≢ i → a'.status j ≡ a.status j)
      → a'.values ≡ contents m'.log_info g'.chain g'.head_at g'.size
      → Simulates m' (update threads i p) g' a'
  Simulates-step m' g' a' p e l x st others vs = record {
    list = l;
    sound = (λ j. elim (same_or_other j i) [
      | inl q ↦ rw (update-same threads i j p q, q) x
      | inr d ↦
          rw (update-other threads i j p d)
            (IsSound-Extends m m' g g' i e s.list j d (threads j) (s.sound j))
    ]);
    same_status = (λ j. elim (same_or_other j i) [
      | inl q ↦ rw (update-same threads i j p q, q) st
      | inr d ↦ rw (update-other threads i j p d) (
          others j d
          ∙ s.same_status j
          ∙ sym (status_of-Extends m m' g g' i e s.list j (threads j) (s.sound j)))
    ]);
    same_values = vs;
  }

  Simulates-silent :
      (p : Point)
      → IsSound m g i p
      → status_of m p ≡ status_of m (threads i)
      → Simulates m (update threads i p) g a
  Simulates-silent p x st =
      Simulates-step m g a p (Extends-refl m g i) s.list x (s.same_status i ∙ sym st) (λ j d. refl)
        s.same_values

  pub Simulates-becomes :
      (p : Point)
      → IsSound m g i p
      → Simulates m (update threads i p) g (becomes a i (status_of m p))
  Simulates-becomes p x =
      Simulates-step m g (becomes a i (status_of m p)) p (Extends-refl m g i) s.list x
        (update-same a.status i i (status_of m p) refl)
        (λ j d. update-other a.status i j (status_of m p) d) s.same_values

module _ {V : Type 0} (empty : V) (Final : Atomic V → Type 0) (threads : ℕ → Point) (a : Atomic V)
    (es : List (Event V)) (i : ℕ) where
  -- What can be seen of a step and of what follows it can be seen of the atomic queue.
  unfoldable pub IsShown : Step V → Type 0
  IsShown t =
      ((g' : Ghost) (a' : Atomic V)
        → Simulates t.memory (update threads i t.point) g' a'
        → Shows empty Final a' es)
      → Shows empty Final a (t.seen ++ es)

  module _ (m : Memory V) (g : Ghost) (s : Simulates m threads g a) where
    pub silent-IsShown :
        (p : Point)
        → IsSound m g i p
        → status_of m p ≡ status_of m (threads i)
        → IsShown (record { memory = m; point = p; seen = [] })
    unfolding IsShown
    silent-IsShown p x st k = k g a (Simulates-silent m threads g a s i p x st)

    pub call_input-IsShown : (v : V) → a.status i ≡ quiet → IsShown (call m i (input v))
    unfolding IsShown call IsSound status_of
    call_input-IsShown v q k = calls_input a es i v q (
        k (owns m g i) (becomes a i (given v)) (
          Simulates-step m threads g a s i (call m i (input v)).memory (owns m g i)
            (becomes a i (given v)) (input_top m.unused) (call-Extends m g i v s.list)
            (call-IsList m g i v s.list) (call-IsNew m g i v s.list) (ground arith)
            (λ j d. update-other a.status i j (given v) d)
            (s.same_values
              ∙ sym (
                  contents-cong m.log_info (update m.log_info m.unused v) g.chain g.chain g.head_at
                    g.size (λ j b. ground (arith, s.list.used j b))))))

    pub swap_tail-IsShown :
        (p : Point) (cur to : ℕ)
        → Follows g cur to
        → IsSound (swap_tail m cur to) (moves_tail m g i cur) i p
        → status_of (swap_tail m cur to) p ≡ status_of m (threads i)
        → IsShown (record { memory = swap_tail m cur to; point = p; seen = [] })
    unfolding IsShown swap_tail
    swap_tail-IsShown p cur to x y st k = k (moves_tail m g i cur) a (
        Simulates-step m threads g a s i (swap_tail m cur to) (moves_tail m g i cur) a p
          (swap_tail-Extends m g i cur to) (swap_tail-IsList m g i cur to s.list x) y
          (s.same_status i ∙ sym st) (λ j d. refl) s.same_values)

    pub return_input-IsShown :
        (cur to : ℕ)
        → Follows g cur to
        → a.status i ≡ put
        → IsShown (record { memory = swap_tail m cur to; point = idle; seen = return_input i ∷ [] })
    unfolding IsShown swap_tail IsSound status_of
    return_input-IsShown cur to x q k = returns_input a es i q (
        k (moves_tail m g i cur) (becomes a i quiet) (
          Simulates-step m threads g a s i (swap_tail m cur to) (moves_tail m g i cur)
            (becomes a i quiet) idle (swap_tail-Extends m g i cur to)
            (swap_tail-IsList m g i cur to s.list x) tt (ground arith)
            (λ j d. update-other a.status i j quiet d) s.same_values))

    pub link-IsShown :
        (node cur : ℕ)
        → At g g.tail_at cur
        → m.next cur ≡ 0
        → IsNew m g i node
        → a.status i ≡ given (m.log_info node)
        → IsShown (record {
          memory = link m g i s.list cur node;
          point = input_advance node cur;
          seen = [];
        })
    unfolding IsShown IsSound status_of
    link-IsShown node cur x free new q k = puts a es i (m.log_info node) q (
        k (grows m g i s.list node) (holds a (a.values ++ m.log_info node ∷ []) i put) (
          Simulates-step m threads g a s i (link m g i s.list cur node) (grows m g i s.list node)
            (holds a (a.values ++ m.log_info node ∷ []) i put) (input_advance node cur)
            (link-Extends m g i s.list cur node x free new)
            (link-IsList m g i s.list cur node x free new)
            (link-Follows m g i s.list cur node x free new) (ground arith)
            (λ j d. update-other a.status i j put d)
            (ap (λ vs. vs ++ m.log_info node ∷ []) s.same_values
              ∙ sym (link-contents m g i s.list cur node x free new))))

    pub take-IsShown :
        (first next : ℕ)
        → Follows g first next
        → m.head ≡ first
        → a.status i ≡ asking
        → IsShown
            (record { memory = moves_head m g i s.list next; point = output_read next; seen = [] })
    unfolding IsShown IsSound status_of
    take-IsShown first next x won q k =
        let vs = contents m.log_info g.chain (suc g.head_at) (g.size - 1) in
        takes a es i (m.log_info next) vs q
          (s.same_values ∙ take-contents m g i s.list first next x won)
          (k (shrinks m g i s.list) (holds a vs i (took (m.log_info next))) (
            Simulates-step m threads g a s i (moves_head m g i s.list next) (shrinks m g i s.list)
              (holds a vs i (took (m.log_info next))) (output_read next)
              (take-Extends m g i s.list first next x won)
              (take-IsList m g i s.list first next x won) (take-At m g i s.list first next x won)
              (ground arith) (λ j d. update-other a.status i j (took (m.log_info next)) d) refl))

    -- A node that `output` found without a next one: the queue is empty.
    none_contents :
        (first : ℕ)
        → At g g.head_at first
        → m.next first ≡ 0
        → contents m.log_info g.chain g.head_at g.size ≡ []
    unfolding contents
    none_contents first x e =
        let p : g.size ≡ 0 =
          ground (arith, At-last m g i s.list g.head_at first (ground arith) x e, x.within) in
        rw p refl

    pub none-IsShown :
        (first : ℕ)
        → At g g.head_at first
        → m.next first ≡ 0
        → a.status i ≡ asking
        → IsShown (record { memory = m; point = idle; seen = return_output i empty ∷ [] })
    unfolding IsShown IsSound status_of
    none-IsShown first x e q k =
        finds_none a (return_output i empty ∷ es) i q (s.same_values ∙ none_contents first x e) (
          returns_output (becomes a i (took empty)) es i empty (ground arith) (
            k g (becomes (becomes a i (took empty)) i quiet) (
              Simulates-step m threads g a s i m g (becomes (becomes a i (took empty)) i quiet) idle
                (Extends-refl m g i) s.list tt (ground arith) (λ j d. ground arith) s.same_values)))
