-- ===== src/Protocol/Utf8.antt =====
-- `str::as_bytes` and `String::from_utf8`, as src/protocol.rs uses them: a byte is a number below 256.
use Prim.Native.Nat.{compare}
use Prim.Native.Char.{Char, char, code, IsLt}
use Prim.Native.String.{[] as ε, ◌∷◌ as ◌◂◌}
use volcano_db.Base.{
  ℕ, zero, suc, ◌+◌, ◌-◌, ◌*◌, ◌/◌, ◌%◌, ◌<◌, ◌≡◌, refl, ap, ◌∙◌, String, Option, none, some, List,
  [], ◌∷◌, ◌++◌, Ordering, arith, ltb, if◌then◌else◌,
}

-- `char::from_u32`: the clauses of the library's test for a scalar value.
abbrev Both : Ordering → Ordering → Type 0
Both Ordering.lt o = IsLt o
Both Ordering.eq _ = ⊥
Both Ordering.gt _ = ⊥

abbrev Scalar : Ordering → Ordering → Ordering → Type 0
Scalar Ordering.lt _ _ = Unit
Scalar Ordering.eq o p = Both o p
Scalar Ordering.gt o p = Both o p

pick : (a b c : Ordering) → (Scalar a b c → Char) → Option Char
pick Ordering.lt b c k = some (k tt)
pick Ordering.eq Ordering.lt Ordering.lt k = some (k tt)
pick Ordering.gt Ordering.lt Ordering.lt k = some (k tt)
pick _ _ _ k = none

unfoldable pub from_u32 : ℕ → Option Char
unfolding pick
from_u32 n = pick (compare n 55296) (compare 57343 n) (compare n 1114112) (char n)

pick-some :
    (a b c : Ordering) (k : Scalar a b c → Char) (h : Scalar a b c) → pick a b c k ≡ some (k h)
unfolding pick
pick-some Ordering.lt b c k h = refl
pick-some Ordering.eq Ordering.lt Ordering.lt k h = refl
pick-some Ordering.gt Ordering.lt Ordering.lt k h = refl
pick-some Ordering.eq Ordering.lt Ordering.eq k h = elim h [ ]
pick-some Ordering.eq Ordering.lt Ordering.gt k h = elim h [ ]
pick-some Ordering.eq Ordering.eq c k h = elim h [ ]
pick-some Ordering.eq Ordering.gt c k h = elim h [ ]
pick-some Ordering.gt Ordering.lt Ordering.eq k h = elim h [ ]
pick-some Ordering.gt Ordering.lt Ordering.gt k h = elim h [ ]
pick-some Ordering.gt Ordering.eq c k h = elim h [ ]
pick-some Ordering.gt Ordering.gt c k h = elim h [ ]

from_u32-code : (c : Char) → from_u32 (code c) ≡ some c
unfolding from_u32
from_u32-code (char n h) =
    pick-some (compare n 55296) (compare 57343 n) (compare n 1114112) (char n) h

code-lt : (c : Char) → code c < 1114112
code-lt (char n h) = go (compare n 55296) (compare 57343 n) (compare n 1114112) refl refl h
  where
    go :
        (a b c : Ordering)
        → compare n 55296 ≡ a
        → compare n 1114112 ≡ c
        → Scalar a b c
        → n < 1114112
    go Ordering.lt b c e f h = ground arith
    go Ordering.eq b c e f h = ground arith
    go Ordering.gt Ordering.lt Ordering.lt e f h = ground arith
    go Ordering.gt Ordering.lt Ordering.eq e f h = elim h [ ]
    go Ordering.gt Ordering.lt Ordering.gt e f h = elim h [ ]
    go Ordering.gt Ordering.eq c e f h = elim h [ ]
    go Ordering.gt Ordering.gt c e f h = elim h [ ]

unfoldable pub encode_char : ℕ → List ℕ
encode_char n =
    if ltb n 128
    then n ∷ []
    else if ltb n 2048
    then (192 + n / 64) ∷ (128 + n % 64) ∷ []
    else if ltb n 65536
    then (224 + n / 4096) ∷ (128 + n / 64 % 64) ∷ (128 + n % 64) ∷ []
    else (240 + n / 262144) ∷ (128 + n / 4096 % 64) ∷ (128 + n / 64 % 64) ∷ (128 + n % 64) ∷ []

-- `str::as_bytes`
unfoldable pub as_bytes : String → List ℕ
unfolding encode_char
as_bytes ε = []
as_bytes (c ◂ s) = encode_char (code c) ++ as_bytes s

-- How many bytes of a character are to come, its number so far, and the least number that needs as
-- many bytes.
record Pending : Type 0 where
  need : ℕ
  sofar : ℕ
  least : ℕ

abbrev whole : Pending
whole = record { need = 0; sofar = 0; least = 0 }

-- A character is complete, and then no byte is to come.
finish : ℕ → Option (Option Char × Pending)
unfolding from_u32
finish n = elim (from_u32 n) [ none ↦ none | some c ↦ some (some c, whole) ]

-- The first byte of a character: the number of bytes that follow.
lead : ℕ → Option (Option Char × Pending)
unfolding finish
lead b =
    if ltb b 128
    then finish b
    else if ltb b 194
    then none
    else if ltb b 224
    then some (none, record { need = 1; sofar = b - 192; least = 128 })
    else if ltb b 240
    then some (none, record { need = 2; sofar = b - 224; least = 2048 })
    else if ltb b 245
    then some (none, record { need = 3; sofar = b - 240; least = 65536 })
    else none

-- A byte that follows.
follow : ℕ → ℕ → ℕ → ℕ → Option (Option Char × Pending)
unfolding finish
follow more sofar least b =
    let n = sofar * 64 + (b - 128) in
    if ltb b 128
    then none
    else if ltb 191 b
    then none
    else if ltb 0 more
    then some (none, record { need = more; sofar = n; least = least })
    else if ltb n least
    then none
    else finish n

step : Pending → ℕ → Option (Option Char × Pending)
unfolding lead follow
step st b = elim (st.need) [ zero ↦ lead b | suc more ↦ follow more st.sofar st.least b ]

abbrev emit : Option Char → Option String → Option String
emit none s = s
emit (some c) none = none
emit (some c) (some s) = some (c ◂ s)

decode : Pending → List ℕ → Option String
unfolding step
decode st [] = elim (st.need) [ zero ↦ some ε | suc n ↦ none ]
decode st (b ∷ bs) = elim (step st b) [ none ↦ none | some (c, st') ↦ emit c (decode st' bs) ]

-- `String::from_utf8`, with `none` for bytes that are no UTF-8
unfoldable pub from_utf8 : List ℕ → Option String
unfolding decode
from_utf8 bs = decode whole bs

bytes_and_texts :
    (as_bytes "aé€𝄞" ≡ 97 ∷ 195 ∷ 169 ∷ 226 ∷ 130 ∷ 172 ∷ 240 ∷ 157 ∷ 132 ∷ 158 ∷ [])
    × (from_utf8 (as_bytes "aé€𝄞") ≡ some "aé€𝄞")
    × (from_utf8 (192 ∷ 128 ∷ []) ≡ none)
    × (from_utf8 (237 ∷ 160 ∷ 128 ∷ []) ≡ none)
unfolding as_bytes from_utf8
bytes_and_texts = (refl, refl, refl, refl)

decode_char :
    (n : ℕ) (c : Char) (bs : List ℕ)
    → n < 1114112
    → from_u32 n ≡ some c
    → decode whole (encode_char n ++ bs) ≡ emit (some c) (decode whole bs)
unfolding decode encode_char
decode_char n c bs lt e = ground arith

pub from_utf8-as_bytes : (s : String) → from_utf8 (as_bytes s) ≡ some s
unfolding from_utf8 as_bytes
from_utf8-as_bytes ε = refl
from_utf8-as_bytes (c ◂ s) =
    decode_char (code c) c (as_bytes s) (code-lt c) (from_u32-code c)
    ∙ ap (emit (some c)) (from_utf8-as_bytes s)
