-- ===== src/Split/Reference.antt =====
-- An independent description of `split_new_v1`: the maximal runs of bytes that are no delimiters,
-- converted from left to right until one fails.
use cpp_freshman.Prelude.{ℕ, ◌+◌, Bool, List, [], ◌∷◌, ◌++◌, if◌then◌else◌, Bytes}
use cpp_freshman.Split.{
  Cast, Kind, Outcome, returned, threw, running, push, pass, again, throw, convert,
}

abbrev pub flush : Bytes → List Bytes
flush [] = []
flush (c ∷ cs) = (c ∷ cs) ∷ []

-- `cur` is the run read so far.
unfoldable pub words : (ℕ → Bool) → Bytes → Bytes → List Bytes
words d cur [] = flush cur
words d cur (c ∷ cs) =
    let cut = flush cur ++ words d [] cs in
    let grown = words d (cur ++ c ∷ []) cs in if d c then cut else grown

module _ {ℓ} {T : Type ℓ} (cast : Bytes → Cast T) where
  unfoldable pub store : Kind → List Bytes → List T → ℕ → Outcome T
  store kind [] tokens n = returned n tokens
  store kind (w ∷ ws) tokens n = elim (convert cast kind w) [
    | push v ↦ store kind ws (tokens ++ v ∷ []) (n + 1)
    | pass ↦ store kind ws tokens (n + 1)
    | again ↦ running
    | throw ↦ threw tokens
  ]
