-- ===== src/Exercises/Templates.antt =====
-- The function templates of example/googletest/func_template.h and two functions of myfuture.cpp. An
-- `int` is its distance from the least one, as in `TestData`, and `none` is one that overflows.
use cpp_freshman.Prelude.{
  ℕ, ◌+◌, ◌-◌, ◌^◌, ◌<◌, ◌&&◌, Option, none, some, List, [], ◌∷◌, ◌++◌, ◌≡◌, arith, ltb, leb,
  if◌then◌else◌, Bytes, ascii,
}

abbrev pub half : ℕ
half = 2 ^ 31

-- `a + b` and `a - b` of two `int`s.
unfoldable pub plus_int : ℕ → ℕ → Option ℕ
plus_int a b = if leb half (a + b) && ltb (a + b) (half + 2 ^ 32) then some (a + b - half) else none

unfoldable pub minus_int : ℕ → ℕ → Option ℕ
minus_int a b =
    if leb b (a + half) && ltb (a + half) (b + 2 ^ 32) then some (a + half - b) else none

-- `add` for a text, and for an integral type, here `int`.
unfoldable pub add_text : Bytes → Bytes → Bytes
add_text a b = a ++ (ascii " " ++ b)

unfoldable pub add_integral : ℕ → ℕ → Option ℕ
unfolding plus_int
add_integral a b = plus_int a b

-- `add` for a floating-point type, whose operations are parameters.
unfoldable pub add_floating : {D : Type 0} → (D → D → D) → (D → D → D) → D → D → D → D
add_floating plus times hundred a b = plus (times a hundred) (times b hundred)

-- `decrease`, and its specialisation for a text.
unfoldable pub decrease_int : ℕ → ℕ → Option ℕ
unfolding minus_int
decrease_int a b = minus_int a b

unfoldable pub decrease_text : Bytes → Bytes → Bytes
decrease_text a b = b ++ (ascii " " ++ a)

-- `Res` and `func_optional`.
pub record Res : Type 0 where
  pub type_at : ℕ
  pub id : Bytes
  pub name : Bytes

unfoldable pub func_optional : List ℕ → Option Res
func_optional [] = some (record { type_at = 1; id = ascii "id"; name = ascii "name" })
func_optional (x ∷ xs) = none

-- `print_func2`, which prints its name.
unfoldable pub print_func2 : Bytes → ℕ → ℕ → Option ℕ
unfolding plus_int
print_func2 name a b = plus_int a b

-- Where the sum of two `int`s does not overflow, neither does the difference that `decrease` makes
-- of it, which gives the first of them back; and `decrease` of texts joins them the other way round
-- than `add`.
pub decrease_int-add_integral :
    (a b c : ℕ) (s t : Bytes)
    → a < 2 ^ 32
    → b < 2 ^ 32
    → add_integral a b ≡ some c
    → (c < 2 ^ 32) × (decrease_int c b ≡ some a) × (decrease_text s t ≡ add_text t s)
unfolding decrease_int add_integral plus_int minus_int decrease_text add_text
decrease_int-add_integral a b c s t la lb e = ground arith
