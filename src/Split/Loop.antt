-- ===== src/Split/Loop.antt =====
-- The loop of `split_new_v1` beside its independent description.
use cpp_freshman.Prelude.{
  ℕ, zero, suc, ◌+◌, ◌-◌, ◌≤◌, ◌<◌, Bool, some, List, [], ◌∷◌, ◌≡◌, refl, sym, ◌∙◌, ◌⊎◌, inl, inr,
  arith, length, length-drop, take_all, drop, drop-drop, drop_all, Bytes,
}
use mathlib.Core.Option
use cpp_freshman.Split.{
  contains, find_first_not_of, find_first_of, substr, Cast, Kind, running, Piece, push, pass, again,
  throw, convert, split_loop, split_new_v1,
}
use cpp_freshman.Split.Reference.{words, store}
use cpp_freshman.Split.Fields.{blank, stop, last, round}

Piece-cases {ℓ} :
    {T : Type ℓ} (p : Piece T) → ((v : T) × (p ≡ push v)) ⊎ (p ≡ pass) ⊎ (p ≡ again) ⊎ (p ≡ throw)
Piece-cases (push v) = inl (v, refl)
Piece-cases pass = inr (inl refl)
Piece-cases again = inr (inr (inl refl))
Piece-cases throw = inr (inr (inr refl))

module _ {ℓ} {T : Type ℓ} (cast : Bytes → Cast T) (kind : Kind) (line delims : Bytes) where
  abbrev d : ℕ → Bool
  d = contains delims

  -- A piece that is tried again is tried for ever.
  split_loop_again :
      (fuel begin : ℕ) (tokens : List T) (n : ℕ)
      → convert cast kind (
          substr line begin (Option.get_or (find_first_of line delims begin) (length line) - begin))
        ≡ again
      → split_loop cast kind line delims fuel (some begin) tokens n ≡ running
  unfolding split_loop
  split_loop_again zero begin tokens n h = refl
  split_loop_again (suc fuel) begin tokens n h =
      rw (h, split_loop) (split_loop_again fuel begin tokens n h)

  -- One round that finds the piece `w` and goes on at `end`.
  split_loop_round :
      (fuel begin end : ℕ) (w : Bytes) (ws : List Bytes) (tokens : List T) (n : ℕ)
      → Option.get_or (find_first_of line delims begin) (length line) ≡ end
      → substr line begin (end - begin) ≡ w
      → ((tokens : List T) (n : ℕ)
          → split_loop cast kind line delims fuel (find_first_not_of line delims end) tokens n
            ≡ store cast kind ws tokens n)
      → split_loop cast kind line delims (suc fuel) (some begin) tokens n
        ≡ store cast kind (w ∷ ws) tokens n
  unfolding split_loop store
  split_loop_round fuel begin end w ws tokens n at_end piece ih =
      elim (Piece-cases (convert cast kind w)) [
        | inl (v, e) ↦ rw (there e, split_loop) (rw at_end (rw (e, store) (ih _ _)))
        | inr (inl e) ↦ rw (there e, split_loop) (rw at_end (rw (e, store) (ih _ _)))
        | inr (inr (inl e)) ↦ split_loop_again (suc fuel) begin tokens n (there e) ∙ rw (e, store)
        | inr (inr (inr e)) ↦ rw (there e, split_loop) (rw (e, store))
      ]
    where
      there :
          {p : Piece T}
          → convert cast kind w ≡ p
          → convert cast kind (
              substr line begin
                (Option.get_or (find_first_of line delims begin) (length line) - begin))
            ≡ p
      there e = rw (at_end, piece) e

  -- From any position, with a round for each byte that is left and one more.
  split_loop-store :
      (fuel pos : ℕ) (tokens : List T) (n : ℕ)
      → pos ≤ length line
      → length line < pos + fuel
      → split_loop cast kind line delims fuel (find_first_not_of line delims pos) tokens n
        ≡ store cast kind (words d [] (drop pos line)) tokens n
  unfolding find_first_not_of find_first_of substr
  split_loop-store zero pos tokens n h k = absurd (omega arith)
  split_loop-store (suc fuel) pos tokens n h k = elim (round d (drop pos line)) [
    | blank e w ↦ rw (e, w) (unfold split_loop store in refl)
    | stop gap size e f fits pos_size w ↦
        let past : pos + (gap + size) ≡ pos + gap + size = omega arith in
        let count : pos + gap + size - (pos + gap) ≡ size = omega arith in
        let fits' : pos + gap + size ≤ length line = omega (arith, length-drop pos line) in
        rw (e, w)
          (split_loop_round fuel (pos + gap) (pos + gap + size) _ _ tokens n
            (rw (← (drop-drop gap pos line), f)) (rw (drop-drop gap pos line, count))
            (λ tokens' n'.
              rw (drop-drop (gap + size) pos line, past)
                (split_loop-store fuel (pos + gap + size) tokens' n' fits' (omega arith))))
    | last gap e f inside w ↦
        let room : pos + gap < length line = omega (arith, length-drop pos line) in
        let count : length line - (pos + gap) ≡ length (drop (pos + gap) line) =
          sym (length-drop (pos + gap) line) in
        rw (e, w)
          (split_loop_round fuel (pos + gap) (length line) _ _ tokens n
            (rw (← (drop-drop gap pos line), f)) (rw (drop-drop gap pos line, count) (take_all _))
            (λ tokens' n'.
              split_loop-store fuel (length line) tokens' n' (omega arith) (omega arith)
              ∙ rw (drop_all line) (unfold words in refl)))
  ]

  -- `split_new_v1` ends as the description of it says: it takes the maximal runs of bytes outside
  -- `delims` from left to right, and its count and tokens are those of `store`. The fuel in the
  -- definition suffices: the call is `running` exactly where the description is.
  pub split_new_v1-store :
      (tokens : List T)
      → split_new_v1 cast kind line delims tokens
        ≡ store cast kind (words (contains delims) [] line) tokens 0
  unfolding split_new_v1
  split_new_v1-store tokens =
      split_loop-store (length line + 1) 0 tokens 0 (omega arith) (omega arith)
