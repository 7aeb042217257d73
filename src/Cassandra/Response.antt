-- ===== src/Cassandra/Response.antt =====
-- The array that `on_auth_initial` of example/cassandra_driver/main.cpp writes.
use Prim.Native.Nat.{zero, suc}
use mathlib.Core.List.{append_assoc}
use cpp_freshman.Prelude.{
  ℕ, ◌+◌, ◌≤◌, ◌<◌, ◌%◌, ◌^◌, Option, none, some, [], ◌∷◌, ◌++◌, ◌≡◌, refl, ap, Bytes, ◌==◌,
  if◌then◌else◌, length, arith,
}
use cpp_freshman.Cassandra.{
  strlen, Buffer, new_buffer, store, copy_bytes, write_response, on_auth_initial,
}

-- Text without a zero.
abbrev pub HasNoZero : Bytes → Type 0
HasNoZero [] = Unit
HasNoZero (c ∷ cs) = (1 ≤ c) × HasNoZero cs

pub strlen-append : (t : Bytes) → HasNoZero t → strlen (t ++ 0 ∷ []) ≡ some (length t)
unfolding strlen
strlen-append [] h = refl
strlen-append (c ∷ cs) (pos, h) = ground (arith, strlen-append cs h)

abbrev pub written : Bytes → Buffer
written [] = []
written (b ∷ bs) = some b ∷ written bs

pub store-append :
    (before after : Buffer) (x : Option ℕ) (b : ℕ)
    → store (length before) b (before ++ x ∷ after) ≡ some (before ++ some b ∷ after)
unfolding store
store-append [] after x b = refl
store-append (y ∷ before) after x b = rw (store, store-append before after x b) refl

pub length-snoc : (before : Buffer) (x : Option ℕ) → length (before ++ x ∷ []) ≡ length before + 1
length-snoc [] x = omega arith
length-snoc (y ∷ before) x = omega (arith, length-snoc before x)

pub copy_bytes-append :
    (before after : Buffer) (t rest : Bytes)
    → copy_bytes (length before) (t ++ rest) (length t) (before ++ (new_buffer (length t) ++ after))
      ≡ some (before ++ (written t ++ after))
unfolding copy_bytes
copy_bytes-append before after [] rest = refl
copy_bytes-append before after (b ∷ t) rest =
    let next = before ++ some b ∷ [] in
    let ih = copy_bytes-append next after t rest in
    rw (copy_bytes, store-append before (new_buffer (length t) ++ after) none b)
      (rw
        (
          length-snoc before (some b),
          append_assoc before (some b ∷ []) (new_buffer (length t) ++ after),
          append_assoc before (some b ∷ []) (written t ++ after),
        )
        at ih)

pub new_buffer-add : (m n : ℕ) → new_buffer (m + n) ≡ new_buffer m ++ new_buffer n
new_buffer-add zero n = let e : 0 + n ≡ n = omega arith in rw e refl
new_buffer-add (suc m) n =
    let e : suc m + n ≡ suc (m + n) = omega arith in rw e (ap (◌∷◌ none) (new_buffer-add m n))

-- The bytes in front of the first zero and what is behind it; a byte that is not written is none.
abbrev pub before_zero : Buffer → Option (Bytes × Buffer)
before_zero [] = none
before_zero (none ∷ xs) = none
before_zero (some b ∷ xs) =
    let rest = before_zero xs in
    if b == 0 then some ([], xs) else elim rest [ none ↦ none | some (t, ys) ↦ some (b ∷ t, ys) ]

abbrev pub all_written : Buffer → Option Bytes
all_written [] = some []
all_written (none ∷ xs) = none
all_written (some b ∷ xs) = elim (all_written xs) [ none ↦ none | some t ↦ some (b ∷ t) ]

-- How a server reads the response: an empty text, the name and the password, with zeros between.
abbrev pub read_name : Option (Bytes × Buffer) → Option (Bytes × Bytes)
read_name none = none
read_name (some (name, rest)) = elim (all_written rest) [
  | none ↦ none
  | some password ↦ some (name, password)
]

abbrev pub read_plain : Buffer → Option (Bytes × Bytes)
read_plain [] = none
read_plain (none ∷ xs) = none
read_plain (some b ∷ xs) = if b == 0 then read_name (before_zero xs) else none

pub before_zero-written :
    (t : Bytes) (rest : Buffer)
    → HasNoZero t
    → before_zero (written t ++ some 0 ∷ rest) ≡ some (t, rest)
before_zero-written [] rest h = refl
before_zero-written (c ∷ cs) rest (pos, h) = ground (arith, before_zero-written cs rest h)

pub all_written-written : (t : Bytes) → all_written (written t ++ []) ≡ some t
all_written-written [] = refl
all_written-written (c ∷ cs) = rw (all_written-written cs) refl

pub length-written : (t : Bytes) → length (written t) ≡ length t
length-written [] = refl
length-written (c ∷ cs) = omega (arith, length-written cs)

-- The two zeros and the password, behind the bytes that are there.
pub store-zero :
    (name : Bytes) (after : Buffer)
    → store (length name + 1) 0 (some 0 ∷ (written name ++ none ∷ after))
      ≡ some (some 0 ∷ (written name ++ some 0 ∷ after))
store-zero name after =
    let e : length (some 0 ∷ written name) ≡ length name + 1 = omega (arith, length-written name) in
    rw e at (store-append (some 0 ∷ written name) after none 0)

pub copy_bytes-password :
    (name password : Bytes)
    → copy_bytes
        (length name + 2)
        (password ++ 0 ∷ [])
        (length password)
        (some 0 ∷ (written name ++ some 0 ∷ (new_buffer (length password) ++ [])))
      ≡ some (some 0 ∷ (written name ++ some 0 ∷ (written password ++ [])))
copy_bytes-password name password =
    let before = some 0 ∷ (written name ++ some 0 ∷ []) in
    let e : length before ≡ length name + 2 =
      omega (arith, length-written name, length-snoc (written name) (some 0)) in
    rw
      (
        e,
        append_assoc (written name) (some 0 ∷ []) (new_buffer (length password) ++ []),
        append_assoc (written name) (some 0 ∷ []) (written password ++ []),
      )
      at (copy_bytes-append before [] password (0 ∷ []))

pub write_response-written :
    (name password : Bytes)
    → write_response
        (record { password = password ++ 0 ∷ []; username = name ++ 0 ∷ [] })
        (length name)
        (length password)
        (none ∷ (new_buffer (length name) ++ none ∷ (new_buffer (length password) ++ [])))
      ≡ some (some 0 ∷ (written name ++ some 0 ∷ (written password ++ [])))
unfolding write_response store
write_response-written name password =
    let after = none ∷ (new_buffer (length password) ++ []) in
    rw
      (
        write_response,
        copy_bytes-append (some 0 ∷ []) after name (0 ∷ []),
        store-zero name (new_buffer (length password) ++ []),
      )
      (copy_bytes-password name password)

-- For a name and a password without a zero, whose size fits in a `size_t`, every write is inside
-- the array, every byte of the array is written, and a server reads the name and the password back.
pub on_auth_initial-read_plain :
    (name password : Bytes)
    → HasNoZero name
    → HasNoZero password
    → length name + length password + 2 < 2 ^ 64
    → (response : Buffer) × (on_auth_initial
          (record { password = password ++ 0 ∷ []; username = name ++ 0 ∷ [] })
        ≡ some response)
      × (read_plain response ≡ some (name, password))
unfolding on_auth_initial
on_auth_initial-read_plain name password h k fits =
    let response = some 0 ∷ (written name ++ some 0 ∷ (written password ++ [])) in
    let e : (length name + length password + 2) % 2 ^ 64
        ≡ suc (length name + suc (length password + 0)) =
      omega arith in
    (
      response,
      rw
          (
            on_auth_initial,
            strlen-append name h,
            strlen-append password k,
            e,
            new_buffer-add (length name) (suc (length password + 0)),
            new_buffer-add (length password) 0,
          )
          (write_response-written name password),
      rw
          (
            before_zero-written name (written password ++ []) h,
            read_name,
            all_written-written password,
          )
          refl,
    )
