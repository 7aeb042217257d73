-- ===== src/FileDict.antt =====
-- example/brpc/plugins/dict/common_file_dict.h and offer_bid_ratio.{h,cpp}: dictionaries that are
-- read from a file of lines with tab-separated columns. Both classes run the same loop over the
-- lines; they differ in how a line becomes an entry and in how an entry is stored.
mod Map
unfoldable pub use Map.{find, assign, emplace}
pub use Map.{find-assign, or_else}
pub mod Load
pub mod Rows
pub mod Store
pub mod Tests
use cpp_freshman.Prelude.{
  ℕ, zero, suc, ◌+◌, Bool, true, false, not, ◌&&◌, List, [], ◌∷◌, ◌++◌, ◌==◌, if◌then◌else◌, length,
  Bytes, Eq,
}
use mathlib.Core.Option
use cpp_freshman.Split.{
  Cast, value, bad_cast, invalid_argument, number, text, Outcome, returned, threw, running,
  split_new_v1,
}

-- A `std::ifstream`: the bytes that are left, and `eofbit`.
pub record Stream : Type 0 where
  pub rest : Bytes
  pub eof : Bool

-- The first line of some bytes; the flag says that a newline ended it.
pub record Cut : Type 0 where
  pub head : Bytes
  pub tail : Bytes
  pub ended : Bool

unfoldable pub cut_line : Bytes → Cut
cut_line [] = record { head = []; tail = []; ended = false }
cut_line (c ∷ cs) =
    let r = cut_line cs in
    if c == b'\n'
    then record { head = []; tail = cs; ended = true }
    else record r { head = c ∷ r.head }

-- `std::getline` on a stream whose `eofbit` is not set: the line without its newline, and `eofbit`
-- if the bytes ran out.
unfoldable pub getline : Stream → Bytes × Stream
unfolding cut_line
getline s = let r = cut_line s.rest in (r.head, record { rest = r.tail; eof = not r.ended })

-- What one line is: an entry, nothing to store, or a conversion that throws. `stuck` is a call of
-- `split_new_v1` that does not return.
pub data Row {ℓ} (E : Type ℓ) : Type ℓ where
  entry : E → Row E
  skip : Row E
  bad : Row E
  stuck : Row E

-- How `load` ends, with the dictionary then.
pub data Loaded {ℓ} (M : Type ℓ) : Type ℓ where
  finished : Bool → M → Loaded M
  raised : M → Loaded M
  unfinished : Loaded M

-- What `load` sees of the file system: whether `stat` succeeds, whether it reports a regular file,
-- whether the stream opens, and the bytes.
pub record File : Type 0 where
  pub stat_ok : Bool
  pub regular : Bool
  pub good : Bool
  pub content : Bytes

module _ {ℓ κ} {E : Type ℓ} {M : Type κ} (row : Bytes → Row E) (put : E → M → M) where
  -- `while (!input.eof())`, with fuel. An empty line is passed over before it is split.
  unfoldable pub load_loop : ℕ → Stream → M → Loaded M
  load_loop zero s m = unfinished
  load_loop (suc fuel) s m =
      let (line, s') = getline s in
      let parsed = if length line == 0 then skip else row line in
      elim s.eof [
        | true ↦ finished true m
        | false ↦ elim parsed [
          | entry e ↦ load_loop fuel s' (put e m)
          | skip ↦ load_loop fuel s' m
          | bad ↦ raised m
          | stuck ↦ unfinished
        ]
      ]

  -- Every round takes a byte or sets `eofbit`, so two rounds more than there are bytes are enough.
  unfoldable pub load : File → M → Loaded M
  unfolding load_loop getline
  load file m =
      let read =
        load_loop (length file.content + 2) (record { rest = file.content; eof = false }) m in
      if not (file.stat_ok && file.regular)
      then finished false m
      else if not file.good
      then finished false m
      else read

-- `boost::lexical_cast` at the types of a `CommonFileDict<K, V, C>`.
pub record Lexical {ℓ κ} (K : Type ℓ) (V : Type κ) : Type (ℓ ⊔ κ) where
  pub to_string : Bytes → Cast Bytes
  pub to_key : Bytes → Cast K
  pub to_value : Bytes → Cast V

abbrev pub tab : Bytes
tab = b'\t' ∷ []

-- The body of the loop of `CommonFileDict::load` between `items.clear()` and the assignment.
module _ {ℓ κ} {K : Type ℓ} {V : Type κ} (lex : Lexical K V) where
  unfoldable pub common_value : K → Bytes → Row (K × V)
  common_value k v = elim (lex.to_value v) [
    | value w ↦ entry (k, w)
    | bad_cast ↦ bad
    | invalid_argument ↦ bad
  ]

  unfoldable pub common_items : List Bytes → Row (K × V)
  unfolding common_value
  common_items [] = skip
  common_items (k ∷ []) = skip
  common_items (k ∷ v ∷ more) = elim (lex.to_key k) [
    | value j ↦ common_value j v
    | bad_cast ↦ bad
    | invalid_argument ↦ bad
  ]

  unfoldable pub common_row : Bytes → Row (K × V)
  common_row line = elim (split_new_v1 lex.to_string text line tab []) [
    | returned n items ↦ common_items items
    | threw items ↦ bad
    | running ↦ stuck
  ]

-- `CommonFileDict::load`, and `get_key`, which answers `V()` for a key that is not there.
module _ {ℓ κ} {K : Type ℓ} {V : Type κ} ⦃e : Eq K⦄ where
  unfoldable pub common_load : Lexical K V → File → List (K × V) → Loaded (List (K × V))
  unfolding load common_row
  common_load lex = load (common_row lex) assign

  unfoldable pub get_key : V → List (K × V) → K → V
  get_key missing m k = Option.get_or (find k m) missing

-- The same of `OfferBidRatio::load`, where `split_new_v1<double>` converts every column.
module _ {ℓ κ} {K : Type ℓ} {D : Type κ} (to_double : Bytes → Cast D) (to_int64 : D → K) where
  unfoldable pub offer_items : List D → Row (K × D)
  offer_items [] = skip
  offer_items (k ∷ []) = skip
  offer_items (k ∷ v ∷ more) = entry (to_int64 k, v)

  unfoldable pub offer_row : Bytes → Row (K × D)
  offer_row line = elim (split_new_v1 to_double number line tab []) [
    | returned n items ↦ offer_items items
    | threw items ↦ bad
    | running ↦ stuck
  ]

module _ {ℓ κ} {K : Type ℓ} {D : Type κ} ⦃e : Eq K⦄ where
  unfoldable pub offer_load :
      (Bytes → Cast D) → (D → K) → File → List (K × D) → Loaded (List (K × D))
  unfolding load offer_row
  offer_load to_double to_int64 = load (offer_row to_double to_int64) emplace
