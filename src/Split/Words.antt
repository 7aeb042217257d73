-- ===== src/Split/Words.antt =====
-- What the pieces of a line are, and lines that are put together from pieces.
use cpp_freshman.Prelude.{
  ℕ, ◌+◌, Bool, true, false, ◌≡◌, ◌≢◌, refl, sym, ap, ◌∙◌, inl, inr, Bool-cases, arith, List, [],
  ◌∷◌, ◌++◌, length, map, Bytes,
}
use mathlib.Core.List.{append_assoc, append-nil}
use cpp_freshman.Split.{
  contains, Cast, value, bad_cast, number, text, returned, threw, convert, split_new_v1,
}
use cpp_freshman.Split.Reference.{flush, words, store}
use cpp_freshman.Split.Loop.{split_new_v1-store}

abbrev pub AllBytes : (ℕ → Bool) → Bool → Bytes → Type 0
AllBytes p b [] = Unit
AllBytes p b (c ∷ cs) = (p c ≡ b) × AllBytes p b cs

-- A piece is not empty and holds no delimiter.
abbrev pub IsToken : (ℕ → Bool) → Bytes → Type 0
IsToken d w = (w ≢ []) × AllBytes d false w

abbrev pub AllTokens : (ℕ → Bool) → List Bytes → Type 0
AllTokens d [] = Unit
AllTokens d (w ∷ ws) = IsToken d w × AllTokens d ws

AllBytes-concat :
    (p : ℕ → Bool) (b : Bool) (cs : Bytes) (c : ℕ)
    → AllBytes p b cs
    → p c ≡ b
    → AllBytes p b (cs ++ c ∷ [])
AllBytes-concat p b [] c h k = (k, tt)
AllBytes-concat p b (x ∷ cs) c h k = (h.0, AllBytes-concat p b cs c h.1 k)

AllTokens-flush :
    (d : ℕ → Bool) (cur : Bytes) (ws : List Bytes)
    → AllBytes d false cur
    → AllTokens d ws
    → AllTokens d (flush cur ++ ws)
AllTokens-flush d [] ws h k = k
AllTokens-flush d (c ∷ cur) ws h k = (((λ e. cc), h), k)

words-AllTokens :
    (d : ℕ → Bool) (s cur : Bytes) → AllBytes d false cur → AllTokens d (words d cur s)
unfolding words
words-AllTokens d [] cur h = rw (← (append-nil (flush cur))) (AllTokens-flush d cur [] h tt)
words-AllTokens d (c ∷ s) cur h = elim (Bool-cases (d c)) [
  | inl e ↦ rw e (AllTokens-flush d cur _ h (words-AllTokens d s [] tt))
  | inr e ↦ rw e (words-AllTokens d s (cur ++ c ∷ []) (AllBytes-concat d false cur c h e))
]

words-keep :
    (d : ℕ → Bool) (c : ℕ) (s cur : Bytes)
    → d c ≡ false
    → words d cur (c ∷ s) ≡ words d (cur ++ c ∷ []) s
unfolding words
words-keep d c s cur h = rw h

pub words-cut :
    (d : ℕ → Bool) (c : ℕ) (s cur : Bytes)
    → d c ≡ true
    → words d cur (c ∷ s) ≡ flush cur ++ words d [] s
unfolding words
words-cut d c s cur h = rw h

pub words-token :
    (d : ℕ → Bool) (w rest cur : Bytes)
    → AllBytes d false w
    → words d cur (w ++ rest) ≡ words d (cur ++ w) rest
words-token d [] rest cur h = rw append-nil
words-token d (c ∷ w) rest cur h =
    words-keep d c (w ++ rest) cur h.0
    ∙ words-token d w rest (cur ++ c ∷ []) h.1
    ∙ rw (append_assoc cur (c ∷ []) w)

-- `words` with one delimiter byte `t` behind every piece.
abbrev pub join : ℕ → List Bytes → Bytes
join t [] = []
join t (w ∷ ws) = w ++ t ∷ join t ws

pub contains_self : (t : ℕ) → contains (t ∷ []) t ≡ true
unfolding contains
contains_self t = ground arith

pub flush_token : (d : ℕ → Bool) (w : Bytes) → IsToken d w → flush w ≡ w ∷ []
flush_token d [] h = absurd (h.0 refl)
flush_token d (c ∷ w) h = refl

words-join :
    (t : ℕ) (ws : List Bytes)
    → AllTokens (contains (t ∷ [])) ws
    → words (contains (t ∷ [])) [] (join t ws) ≡ ws
words-join t [] h = unfold words in refl
words-join t (w ∷ ws) h =
    words-token (contains (t ∷ [])) w (t ∷ join t ws) [] h.0.1
    ∙ words-cut (contains (t ∷ [])) t (join t ws) w (contains_self t)
    ∙ rw (flush_token (contains (t ∷ [])) w h.0) (ap (◌∷◌ w) (words-join t ws h.1))

-- `boost::lexical_cast<std::string>` of a `std::string` gives that string back.
module _ (cast : Bytes → Cast Bytes) (same : (s : Bytes) → cast s ≡ value s) where
  store_text :
      (ws ts : List Bytes) (n : ℕ) → store cast text ws ts n ≡ returned (n + length ws) (ts ++ ws)
  unfolding store convert
  store_text [] ts n = ground (arith, append-nil ts)
  store_text (w ∷ ws) ts n =
      ground (arith, same w, store_text ws (ts ++ w ∷ []) (n + 1), append_assoc ts (w ∷ []) ws)

  -- For strings the call returns for every line and delimiter set: it appends the pieces of the
  -- line to what `tokens` held and returns their number.
  pub split_new_v1_text :
      (line delims : Bytes) (tokens : List Bytes)
      → split_new_v1 cast text line delims tokens
        ≡ returned
            (length (words (contains delims) [] line))
            (tokens ++ words (contains delims) [] line)
  split_new_v1_text line delims tokens =
      split_new_v1-store cast text line delims tokens ∙ store_text _ tokens 0 ∙ ground arith

  -- The tokens of a call on an empty vector are nonempty and free of delimiters, and the call
  -- returns their number.
  pub split_new_v1-AllTokens :
      (line delims : Bytes) {n : ℕ} {tokens : List Bytes}
      → split_new_v1 cast text line delims [] ≡ returned n tokens
      → AllTokens (contains delims) tokens × (n ≡ length tokens)
  split_new_v1-AllTokens line delims {n} {tokens} h =
      let e : returned n tokens ≡ returned _ (words (contains delims) [] line) =
        sym h ∙ split_new_v1_text line delims [] in
      let t : tokens ≡ words (contains delims) [] line = ground arith in
      (rw t (words-AllTokens (contains delims) line [] tt), ground arith)

  -- Pieces that are nonempty and free of the byte `t`, each written with `t` behind it, are read
  -- back from an empty vector, and their number is returned.
  pub split_new_v1-join :
      (t : ℕ) (ws : List Bytes)
      → AllTokens (contains (t ∷ [])) ws
      → split_new_v1 cast text (join t ws) (t ∷ []) [] ≡ returned (length ws) ws
  split_new_v1-join t ws h = split_new_v1_text (join t ws) (t ∷ []) [] ∙ rw (words-join t ws h)

module _ {ℓ} {T : Type ℓ} (cast : Bytes → Cast T) where
  store_bad_cast :
      (ws : List Bytes) (vs : List T) (w : Bytes) (rest : List Bytes) (tokens : List T) (n : ℕ)
      → map cast ws ≡ map value vs
      → cast w ≡ bad_cast
      → store cast number (ws ++ w ∷ rest) tokens n ≡ threw (tokens ++ vs)
  unfolding store convert
  store_bad_cast [] [] w rest tokens n h k = rw (k, store) (rw append-nil)
  store_bad_cast [] (v ∷ vs) w rest tokens n h k = cc
  store_bad_cast (x ∷ ws) [] w rest tokens n h k = cc
  store_bad_cast (x ∷ ws) (v ∷ vs) w rest tokens n h k =
      let head : cast x ≡ value v = ground arith in
      rw (head, store)
        (store_bad_cast ws vs w rest (tokens ++ v ∷ []) (n + 1) (ground arith) k
          ∙ rw (append_assoc tokens (v ∷ []) vs))

  -- For numbers, a piece that `boost::lexical_cast` refuses is not skipped: `bad_lexical_cast`
  -- leaves `split_new_v1`, and `tokens` then holds the values of the pieces before it.
  pub split_new_v1_bad_cast :
      (line delims : Bytes) (tokens : List T) (ws : List Bytes) (vs : List T) (w : Bytes)
      (rest : List Bytes)
      → words (contains delims) [] line ≡ ws ++ w ∷ rest
      → map cast ws ≡ map value vs
      → cast w ≡ bad_cast
      → split_new_v1 cast number line delims tokens ≡ threw (tokens ++ vs)
  split_new_v1_bad_cast line delims tokens ws vs w rest split h k =
      split_new_v1-store cast number line delims tokens
      ∙ rw split (store_bad_cast ws vs w rest tokens 0 h k)
