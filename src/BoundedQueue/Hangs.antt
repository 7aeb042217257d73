-- ===== src/BoundedQueue/Hangs.antt =====
-- The steps of example/babylon/concurrent/bounded_queue_main.cpp: what its queue holds, and where
-- `main` is.
use mathlib.Core.Option.{some-injective}
use cpp_freshman.Prelude.{
  ℕ, ◌+◌, ◌≤◌, ◌<◌, some, List, [], ◌∷◌, ◌++◌, ◌≡◌, ◌⊎◌, refl, sym, inl, inr, arith, length, ltb,
  Bytes, ascii, Bool-cases, Option-cases, ◌∙◌,
}
use cpp_freshman.Cassandra.{to_string}
use cpp_freshman.BoundedQueue.{
  BoundedQueue, Main, at_push, at_pop, at_join_td2, at_join_td1, at_return, QueueProgram, Mover,
  main_moves, put_moves, get_moves, rounds, put_text, main_text, put_data_by_thread,
  get_data_by_thread, main_next, queue_program_step, queue_program_run, queue_program_start,
}

abbrev pub IsOneOf : Bytes → Type 0
IsOneOf x = (x ≡ put_text 0) ⊎ (x ≡ main_text)

-- Which text is the oldest.
abbrev pub HasOldest : Main → ℕ → List Bytes → Type 0
HasOldest at_push put [] = put ≡ 0
HasOldest at_push put (x ∷ xs) = x ≡ put_text 0
HasOldest at_pop put [] = ⊥
HasOldest at_pop put (x ∷ xs) = IsOneOf x
HasOldest (at_join_td2 result) put xs = IsOneOf result
HasOldest (at_join_td1 result) put xs = IsOneOf result
HasOldest (at_return result) put xs = IsOneOf result × (rounds ≤ put)

abbrev pub of_main : Main → ℕ
of_main at_pop = 1
of_main _ = 0

length-snoc : (xs : List Bytes) (x : Bytes) → length (xs ++ x ∷ []) ≡ length xs + 1
length-snoc [] x = refl
length-snoc (y ∷ xs) x = omega (arith, length-snoc xs x)

HasOldest-put :
    (p : Main) (put : ℕ) (xs : List Bytes)
    → HasOldest p put xs
    → HasOldest p (put + 1) (xs ++ put_text put ∷ [])
HasOldest-put at_push put [] h = rw h refl
HasOldest-put at_push put (x ∷ xs) h = h
HasOldest-put at_pop put [] h = elim h [ ]
HasOldest-put at_pop put (x ∷ xs) h = h
HasOldest-put (at_join_td2 result) put xs h = h
HasOldest-put (at_join_td1 result) put xs h = h
HasOldest-put (at_return result) put xs (h, l) = (h, omega arith)

HasOldest-main_text :
    (put : ℕ) (xs : List Bytes)
    → HasOldest at_push put xs
    → HasOldest at_pop put (xs ++ main_text ∷ [])
HasOldest-main_text put [] h = inr refl
HasOldest-main_text put (x ∷ xs) h = inl h

module _ {Q : Type 0} (ops : BoundedQueue Q) where
  -- The queue holds what was put and not taken, within its capacity.
  pub record IsHeld (s : QueueProgram Q) : Type 0 where
    pub oldest : HasOldest s.main s.put (ops.content s.queue)
    pub held : length (ops.content s.queue) ≡ s.put + of_main s.main
    pub within : length (ops.content s.queue) ≤ ops.capacity s.queue
    pub same : ops.capacity s.queue ≡ ops.capacity (ops.reserve_and_clear 1000)

  -- A `push` that returns had room.
  push-some :
      (q r : Q) (x : Bytes)
      → ops.push q x ≡ some r
      → (ops.content r ≡ ops.content q ++ x ∷ [])
        × (length (ops.content q) < ops.capacity q)
        × (ops.capacity r ≡ ops.capacity q)
  push-some q r x e = elim (Bool-cases (ltb (length (ops.content q)) (ops.capacity q))) [
    | inl f ↦
        let lt : length (ops.content q) < ops.capacity q = ground arith in
        let (r', p, c, d) = ops.push_room q x lt in
        let i : r' ≡ r = some-injective r' r (sym p ∙ e) in (rw i at c, lt, rw i at d)
    | inr f ↦ let full = ops.push_full q x (ground arith) in absurd (ground (arith, full, e))
  ]

  put_data_by_thread-IsHeld : (s : QueueProgram Q) → IsHeld s → IsHeld (put_data_by_thread ops s)
  unfolding put_data_by_thread
  put_data_by_thread-IsHeld s h = elim (Bool-cases (ltb s.put rounds)) [
    | inl e ↦ elim (Option-cases (ops.push s.queue (put_text s.put))) [
      | inl f ↦ rw (e, f) h
      | inr (q, f) ↦
          let (c, lt, d) = push-some s.queue q (put_text s.put) f in
          rw (e, f)
            (record {
              oldest = rw c (HasOldest-put s.main s.put (ops.content s.queue) h.oldest);
              held =
                  rw c (omega (arith, h.held, length-snoc (ops.content s.queue) (put_text s.put)));
              within =
                  rw (c, d) (omega (arith, length-snoc (ops.content s.queue) (put_text s.put)));
              same = d ∙ h.same;
            })
    ]
    | inr e ↦ rw e h
  ]

  main_pop-IsHeld :
      (s : QueueProgram Q) (xs : List Bytes)
      → ops.content s.queue ≡ xs
      → HasOldest at_pop s.put (ops.content s.queue)
      → length (ops.content s.queue) ≡ s.put + 1
      → IsHeld s
      → IsHeld (main_next ops at_pop s)
  unfolding main_next
  main_pop-IsHeld s [] c o n h = elim (rw c at o) [ ]
  main_pop-IsHeld s (x ∷ xs) c o n h =
      let (q, p, d, k) = ops.pop_oldest s.queue x xs c in
      let b : IsOneOf x = rw c at o in
      rw (main_next, p)
        (record {
          oldest = b;
          held = rw d (ground (arith, rw c at n));
          within = rw (d, k) (ground (arith, rw c at h.within));
          same = k ∙ h.same;
        })

  main_next-IsHeld :
      (p : Main) (s : QueueProgram Q) → s.main ≡ p → IsHeld s → IsHeld (main_next ops p s)
  unfolding main_next
  main_next-IsHeld at_push s e h = elim (Option-cases (ops.push s.queue main_text)) [
    | inl f ↦ rw (main_next, f) h
    | inr (q, f) ↦
        let (c, lt, d) = push-some s.queue q main_text f in
        rw (main_next, f)
          (record {
            oldest = rw c (HasOldest-main_text s.put (ops.content s.queue) (rw e at h.oldest));
            held =
                rw c (omega (arith, rw e at h.held, length-snoc (ops.content s.queue) main_text));
            within = rw (c, d) (omega (arith, length-snoc (ops.content s.queue) main_text));
            same = d ∙ h.same;
          })
  ]
  main_next-IsHeld at_pop s e h =
      main_pop-IsHeld s (ops.content s.queue) refl (rw e at h.oldest) (rw e at h.held) h
  main_next-IsHeld (at_join_td2 result) s e h = elim (Bool-cases (ltb s.got rounds)) [
    | inl f ↦ rw (main_next, f) h
    | inr f ↦
        rw (main_next, f)
          (record {
            oldest = rw e at h.oldest;
            held = rw e at h.held;
            within = h.within;
            same = h.same;
          })
  ]
  main_next-IsHeld (at_join_td1 result) s e h = elim (Bool-cases (ltb s.put rounds)) [
    | inl f ↦ rw (main_next, f) h
    | inr f ↦
        rw (main_next, f)
          (record {
            oldest = (rw e at h.oldest, ground arith);
            held = rw e at h.held;
            within = h.within;
            same = h.same;
          })
  ]
  main_next-IsHeld (at_return result) s e h = h

  queue_program_step-IsHeld :
      (t : Mover) (s : QueueProgram Q) → IsHeld s → IsHeld (queue_program_step ops t s)
  unfolding queue_program_step
  queue_program_step-IsHeld main_moves s h = main_next-IsHeld s.main s refl h
  queue_program_step-IsHeld put_moves s h = put_data_by_thread-IsHeld s h
  queue_program_step-IsHeld get_moves s h = elim (Bool-cases (ltb s.got rounds)) [
    | inl e ↦
        rw (get_data_by_thread, e)
          (record { oldest = h.oldest; held = h.held; within = h.within; same = h.same })
    | inr e ↦ rw (get_data_by_thread, e) h
  ]

  queue_program_run-IsHeld :
      (ts : List Mover) (s : QueueProgram Q) → IsHeld s → IsHeld (queue_program_run ops ts s)
  unfolding queue_program_run
  queue_program_run-IsHeld [] s h = h
  queue_program_run-IsHeld (t ∷ ts) s h =
      queue_program_run-IsHeld ts (queue_program_step ops t s) (queue_program_step-IsHeld t s h)

  start-IsHeld : IsHeld (queue_program_start ops)
  start-IsHeld =
      let e = ops.content-reserve_and_clear 1000 in
      record { oldest = rw e refl; held = rw e refl; within = rw e (omega arith); same = refl }

  -- Whatever the order of the steps, the text that `main` prints for "10086" is that one or the first
  -- of the thread.
  pub queue_program_result :
      (ts : List Mover) (result : Bytes)
      → (queue_program_run ops ts (queue_program_start ops)).main ≡ at_join_td2 result
      → (result ≡ ascii "data:0") ⊎ (result ≡ ascii "10086")
  unfolding to_string
  queue_program_result ts result e =
      let h = queue_program_run-IsHeld ts (queue_program_start ops) start-IsHeld in
      let o : IsOneOf result = rw e at h.oldest in o
