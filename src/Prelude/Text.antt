-- ===== src/Prelude/Text.antt =====
-- Texts: Python's `str`, compared whole, with `strip` and the uppercase test of symbols.
use Prim.Native.Nat.{ℕ, zero, suc, ◌-◌, ◌/◌, ◌%◌}
use Prim.Native.Char.{Char, code}
use Prim.Native.String.{String}
use mathlib.Core.Bool.{Bool, true, false, not, ◌&&◌, ◌||◌}
use mathlib.Core.List.{List, [], ◌∷◌}
use trade_bot.Prelude.Tests.{ltb, leb, ◌==◌, if◌then◌else◌}
pub use Prim.Native.String.{◌++◌ as str_append}
pub use text.Mathlib.Text.{◌==◌ as str_eq}
pub use text.Mathlib.TextEquality.{eq_iff as str_eq_iff}
pub use text.Mathlib.TextPositions.{eq_refl as str_eq_refl}

-- `str.isspace` of one code point.
is_space : ℕ → Bool
is_space c =
    (leb 9 c && leb c 13)
    || (leb 28 c && leb c 32)
    || c == 0x85
    || c == 0xa0
    || c == 0x1680
    || (leb 0x2000 c && leb c 0x200a)
    || c == 0x2028
    || c == 0x2029
    || c == 0x202f
    || c == 0x205f
    || c == 0x3000

abbrev pub is_empty : String → Bool
is_empty String.[] = true
is_empty (String.◌∷◌ c s) = false

lstrip : String → String
lstrip String.[] = String.[]
lstrip (String.◌∷◌ c s) = if is_space (code c) then lstrip s else String.◌∷◌ c s

rstrip : String → String
rstrip String.[] = String.[]
rstrip (String.◌∷◌ c s) =
    let rest = rstrip s in
    if is_empty rest && is_space (code c) then String.[] else String.◌∷◌ c rest

unfoldable pub strip : String → String
unfolding is_space lstrip rstrip
strip s = rstrip (lstrip s)

-- `not value.strip()`
unfoldable pub is_blank : String → Bool
unfolding strip
is_blank s = is_empty (strip s)

-- `s == s.upper()` for an ASCII text: no letter from a to z.
unfoldable pub is_uppercase : String → Bool
is_uppercase String.[] = true
is_uppercase (String.◌∷◌ c s) = not (leb b'a' (code c) && leb (code c) b'z') && is_uppercase s

-- The character of a text at a place, or the last resort.
char_at : ℕ → String → Char → Char
char_at n String.[] c = c
char_at zero (String.◌∷◌ d s) c = d
char_at (suc n) (String.◌∷◌ d s) c = char_at n s c

-- `c.upper()` of an ASCII character.
upper_char : Char → Char
unfolding char_at
upper_char c =
    if leb b'a' (code c) && leb (code c) b'z'
    then char_at (code c - b'a') "ABCDEFGHIJKLMNOPQRSTUVWXYZ" c
    else c

-- `s.upper()` of an ASCII text.
unfoldable pub upper : String → String
unfolding upper_char
upper String.[] = String.[]
upper (String.◌∷◌ c s) = String.◌∷◌ (upper_char c) (upper s)

-- `s in values`
abbrev pub contains_text : String → List String → Bool
contains_text s [] = false
contains_text s (t ∷ ts) = str_eq t s || contains_text s ts

-- `",".join(texts)`
unfoldable pub join_comma : List String → String
join_comma [] = ""
join_comma (s ∷ []) = s
join_comma (s ∷ rest) = str_append s (str_append "," (join_comma rest))

digit : ℕ → String
digit n =
    if n == 0
    then "0"
    else if n == 1
    then "1"
    else if n == 2
    then "2"
    else if n == 3
    then "3"
    else if n == 4
    then "4"
    else if n == 5
    then "5"
    else if n == 6
    then "6"
    else if n == 7
    then "7"
    else if n == 8
    then "8"
    else "9"

number_from : ℕ → ℕ → String
unfolding digit
number_from zero n = digit n
number_from (suc f) n = elim (ltb n 10) [
  | true ↦ digit n
  | false ↦ str_append (number_from f (n / 10)) (digit (n % 10))
]

-- `str(n)`; each round drops one digit, so `n` rounds are enough.
unfoldable pub number_text : ℕ → String
unfolding number_from
number_text n = number_from n n
