-- ===== src/Text.antt =====
-- What the source asks of texts, besides equality: the formatting of integers, the search for a dot
-- and the part after the last one.
use Prim.Native.Char.{code}
use Prim.Native.String.{[] as ε, ◌∷◌ as ◌◂◌, ◌++◌ as ◌⋅◌}
use volcano_db.Base.{
  ℕ, zero, suc, ◌-◌, ◌*◌, ◌^◌, Option, ◌/◌, ◌%◌, ◌≡◌, refl, Bool, true, false, String, List, [],
  ◌∷◌, get_elem?, none, some, ◌+◌, ◌&&◌, ◌||◌, leb, ltb, nat_beq, if◌then◌else◌,
}
use volcano_db.Base.Int.{ℤ, pos, negsuc}

infixr 65 ◌^^◌
abbrev pub ◌^^◌ : String → String → String
s ^^ t = s ⋅ t

-- `name.contains('.')`
unfoldable pub contains_dot : String → Bool
contains_dot ε = false
contains_dot (c ◂ s) = if nat_beq (code c) b'.' then true else contains_dot s

last_segment : String → String → String
last_segment current ε = current
last_segment current (c ◂ s) = last_segment (if nat_beq (code c) b'.' then s else current) s

-- `name.split('.').last()`
unfoldable pub base_name : String → String
unfolding last_segment
base_name s = last_segment s s

digit : ℕ → String
digit d =
    elim (get_elem? {A = String} ("0" ∷ "1" ∷ "2" ∷ "3" ∷ "4" ∷ "5" ∷ "6" ∷ "7" ∷ "8" ∷ "9" ∷ [])
      d) [ none ↦ "" | some t ↦ t ]

-- The decimal digits of a number below 10 ^ fuel.
digits : ℕ → ℕ → String
digits zero n = ""
digits (suc fuel) n =
    let front = digits fuel (n / 10) in if ltb n 10 then digit n else front ^^ digit (n % 10)

-- `{}` of an `i64`, whose magnitude is below 10 ^ 20.
unfoldable pub show_i64 : ℤ → String
unfolding digits digit
show_i64 (pos n) = digits 20 n
show_i64 (negsuc n) = "-" ^^ digits 20 (suc n)

-- The number that a text of decimal digits stands for, read after `acc`.
read_digits : ℕ → String → Option ℕ
read_digits acc ε = some acc
read_digits acc (c ◂ s) =
    let rest = read_digits (acc * 10 + (code c - b'0')) s in
    if leb b'0' (code c) && leb (code c) b'9' then rest else none

-- At least one digit, and no number that an `i64` cannot hold.
read_pos : String → Option ℤ
unfolding read_digits
read_pos ε = none
read_pos s = elim (read_digits 0 s) [
  | none ↦ none
  | some n ↦ if ltb n (2 ^ 63) then some (pos n) else none
]

read_neg : String → Option ℤ
unfolding read_digits
read_neg ε = none
read_neg s = elim (read_digits 0 s) [
  | none ↦ none
  | some zero ↦ some (pos 0)
  | some (suc n) ↦ if ltb n (2 ^ 63) then some (negsuc n) else none
]

-- `str::parse::<i64>`, with `none` for its error
unfoldable pub parse_i64 : String → Option ℤ
unfolding read_pos read_neg
parse_i64 ε = none
parse_i64 (c ◂ s) =
    if nat_beq (code c) b'-'
    then read_neg s
    else if nat_beq (code c) b'+'
    then read_pos s
    else read_pos (c ◂ s)

-- `vec.join(sep)`
unfoldable pub join : String → List String → String
join sep [] = ""
join sep (s ∷ []) = s
join sep (s ∷ t ∷ rest) = s ^^ (sep ^^ join sep (t ∷ rest))

names_and_numbers :
    (base_name "a.b.c" ≡ "c")
    × (base_name "c" ≡ "c")
    × (contains_dot "u.id" ≡ true)
    × (show_i64 (negsuc 99) ≡ "-100")
    × (join "," ("a" ∷ "b" ∷ []) ≡ "a,b")
unfolding base_name contains_dot show_i64 join
names_and_numbers = (refl, refl, refl, refl, refl)

abbrev pub text_is_empty : String → Bool
text_is_empty ε = true
text_is_empty (c ◂ s) = false

-- The code points that Rust's `char::is_whitespace` accepts.
abbrev between : ℕ → ℕ → ℕ → Bool
between lo hi c = leb lo c && leb c hi

unfoldable pub is_whitespace : ℕ → Bool
is_whitespace c =
    between 9 13 c
    || between 0x2000 0x200a c
    || between 0x2028 0x2029 c
    || nat_beq c 32
    || nat_beq c 0x85
    || nat_beq c 0xa0
    || nat_beq c 0x1680
    || nat_beq c 0x202f
    || nat_beq c 0x205f
    || nat_beq c 0x3000

trim_start : String → String
unfolding is_whitespace
trim_start ε = ε
trim_start (c ◂ s) = let rest = trim_start s in if is_whitespace (code c) then rest else c ◂ s

trim_end : String → String
unfolding is_whitespace
trim_end ε = ε
trim_end (c ◂ s) =
    let rest = trim_end s in if is_whitespace (code c) && text_is_empty rest then ε else c ◂ rest

-- `str::trim`
unfoldable pub trim : String → String
unfolding trim_start trim_end
trim s = trim_end (trim_start s)

abbrev ascii_lower : ℕ → ℕ
ascii_lower c = if between b'A' b'Z' c then c + 32 else c

-- `str::eq_ignore_ascii_case`
unfoldable pub eq_ignore_ascii_case : String → String → Bool
eq_ignore_ascii_case ε ε = true
eq_ignore_ascii_case (c ◂ s) (d ◂ t) =
    nat_beq (ascii_lower (code c)) (ascii_lower (code d)) && eq_ignore_ascii_case s t
eq_ignore_ascii_case _ _ = false

numbers_read :
    (parse_i64 "-42" ≡ some (negsuc 41))
    × (parse_i64 "9223372036854775808" ≡ none)
    × (parse_i64 "-" ≡ none)
    × (parse_i64 "+7" ≡ some (pos 7))
unfolding parse_i64
numbers_read = (refl, refl, refl, refl)

trims : (trim "  a b " ≡ "a b") × (eq_ignore_ascii_case "/CRASH" "/crash" ≡ true)
unfolding trim eq_ignore_ascii_case
trims = (refl, refl)
