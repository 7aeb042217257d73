-- ===== src/Split.antt =====
-- example/brpc/util/split_str.h: `split_new_v1`, which cuts a line at the bytes of a delimiter set
-- and converts each piece.
pub mod Reference
pub mod Fields
pub mod Loop
pub mod Words
pub mod Tests
use cpp_freshman.Prelude.{
  ℕ, zero, suc, ◌+◌, ◌-◌, Bool, false, not, ◌||◌, Option, none, some, List, [], ◌∷◌, ◌++◌, ◌==◌,
  if◌then◌else◌, length, take, drop, Bytes,
}
use mathlib.Core.Option

unfoldable pub contains : Bytes → ℕ → Bool
contains [] c = false
contains (d ∷ ds) c = c == d || contains ds c

-- The position of the first byte that passes the test; `none` is `npos`.
unfoldable pub find_index? : (ℕ → Bool) → Bytes → Option ℕ
find_index? p [] = none
find_index? p (c ∷ cs) =
    let later = Option.map suc (find_index? p cs) in if p c then some 0 else later

-- `std::string::find_first_not_of` and `find_first_of`, from a position.
unfoldable pub find_first_not_of : Bytes → Bytes → ℕ → Option ℕ
unfolding find_index? contains
find_first_not_of line delims pos =
    Option.map (λ k. pos + k) (find_index? (λ c. not (contains delims c)) (drop pos line))

unfoldable pub find_first_of : Bytes → Bytes → ℕ → Option ℕ
unfolding find_index? contains
find_first_of line delims pos =
    Option.map (λ k. pos + k) (find_index? (λ c. contains delims c) (drop pos line))

unfoldable pub substr : Bytes → ℕ → ℕ → Bytes
substr line pos count = take count (drop pos line)

-- What a call of `boost::lexical_cast<T>` does: a value, `boost::bad_lexical_cast`, or another
-- library's `std::invalid_argument`.
pub data Cast {ℓ} (T : Type ℓ) : Type ℓ where
  value : T → Cast T
  bad_cast : Cast T
  invalid_argument : Cast T

-- Which branch `is_number_type<T>` and `is_string_type<T>` choose.
pub data Kind : Type 0 where
  number text other : Kind

-- How the call ends, with what stands in `tokens` then. `running` means that the fuel is used up.
pub data Outcome {ℓ} (T : Type ℓ) : Type ℓ where
  returned : ℕ → List T → Outcome T
  threw : List T → Outcome T
  running : Outcome T

-- What the body does with one piece before `++n`.
pub data Piece {ℓ} (T : Type ℓ) : Type ℓ where
  push : T → Piece T
  pass : Piece T
  again : Piece T
  throw : Piece T

module _ {ℓ} {T : Type ℓ} (cast : Bytes → Cast T) where
  -- `catch (std::invalid_argument&) { continue; }` stands in the branch of numbers alone.
  unfoldable pub convert : Kind → Bytes → Piece T
  convert number s = elim (cast s) [
    | value v ↦ push v
    | bad_cast ↦ throw
    | invalid_argument ↦ again
  ]
  convert text s = elim (cast s) [ value v ↦ push v | bad_cast ↦ throw | invalid_argument ↦ throw ]
  convert other s = pass

  unfoldable pub split_loop : Kind → Bytes → Bytes → ℕ → Option ℕ → List T → ℕ → Outcome T
  split_loop kind line delims zero begin tokens n = running
  split_loop kind line delims (suc fuel) none tokens n = returned n tokens
  split_loop kind line delims (suc fuel) (some begin) tokens n =
      let end = Option.get_or (find_first_of line delims begin) (length line) in
      let next = find_first_not_of line delims end in
      elim (convert kind (substr line begin (end - begin))) [
        | push v ↦ split_loop kind line delims fuel next (tokens ++ v ∷ []) (n + 1)
        | pass ↦ split_loop kind line delims fuel next tokens (n + 1)
        | again ↦ split_loop kind line delims fuel (some begin) tokens n
        | throw ↦ threw tokens
      ]

  -- Every round but `again` consumes a byte, so one round more than the line has bytes is enough.
  unfoldable pub split_new_v1 : Kind → Bytes → Bytes → List T → Outcome T
  unfolding split_loop convert find_first_of find_first_not_of substr
  split_new_v1 kind line delims tokens =
      split_loop kind line delims (length line + 1) (find_first_not_of line delims 0) tokens 0
