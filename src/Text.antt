-- ===== src/Text.antt =====
-- Python's text operations, as the agent and the services use them on protocol lines. A text is the
-- list of its code points. The digits are the ASCII ones: adapters and receivers speak ASCII.
pub mod Words
pub mod Hex
use Prim.Native.Char.{code}
use vehinode.Prelude.{
  ℕ, zero, suc, ◌+◌, ◌-◌, ◌*◌, ◌/◌, ◌%◌, String, Bool, true, false, not, ◌&&◌, ◌||◌, Option, none,
  some, List, [], ◌∷◌, ◌++◌, ◌==◌, ltb, leb, if◌then◌else◌, length,
}
use vehinode.Prelude.Int.{ℤ, pos, negsuc}

abbrev pub Text : Type 0
Text = List ℕ

abbrev pub codes : String → Text
codes String.[] = []
codes (String.◌∷◌ c s) = code c ∷ codes s

abbrev pub is_empty : Text → Bool
is_empty [] = true
is_empty (c ∷ s) = false

abbrev pub eq_text : Text → Text → Bool
eq_text [] [] = true
eq_text [] (d ∷ t) = false
eq_text (c ∷ s) [] = false
eq_text (c ∷ s) (d ∷ t) = c == d && eq_text s t

-- The text up to the first such character, which is `text.partition(separator)[0]`.
unfoldable pub before : ℕ → Text → Text
before separator [] = []
before separator (c ∷ s) = if c == separator then [] else c ∷ before separator s

-- `text.lower()` for the letters of ASCII. A header is Latin-1, whose other letters stay outside ASCII.
unfoldable pub lower : Text → Text
lower [] = []
lower (c ∷ s) = (if leb 65 c && leb c 90 then c + 32 else c) ∷ lower s

-- `str.isspace` of one character.
unfoldable pub is_space : ℕ → Bool
is_space c =
    (leb 9 c && leb c 13)
    || (leb 28 c && leb c 32)
    || c == 0x85
    || c == 0xA0
    || c == 0x1680
    || (leb 0x2000 c && leb c 0x200A)
    || c == 0x2028
    || c == 0x2029
    || c == 0x202F
    || c == 0x205F
    || c == 0x3000

unfoldable pub lstrip : Text → Text
lstrip [] = []
lstrip (c ∷ s) = if is_space c then lstrip s else c ∷ s

unfoldable pub rstrip : Text → Text
rstrip [] = []
rstrip (c ∷ s) = let rest = rstrip s in if is_empty rest && is_space c then [] else c ∷ rest

unfoldable pub strip : Text → Text
unfolding lstrip rstrip
strip s = rstrip (lstrip s)

-- `text.replace(old, new)` for two characters.
unfoldable pub replace : ℕ → ℕ → Text → Text
replace old new [] = []
replace old new (c ∷ s) = (if c == old then new else c) ∷ replace old new s

abbrev pub flush : Text → List Text → List Text
flush [] ws = ws
flush (c ∷ s) ws = (c ∷ s) ∷ ws

-- `text.split()`, behind the characters of the word that is being read.
unfoldable pub split_word : Text → Text → List Text
split_word word [] = flush word []
split_word word (c ∷ s) = elim (is_space c) [
  | true ↦ flush word (split_word [] s)
  | false ↦ split_word (word ++ c ∷ []) s
]

unfoldable pub split : Text → List Text
unfolding split_word
split s = split_word [] s

-- `"".join(words)`
unfoldable pub join : List Text → Text
join [] = []
join (w ∷ ws) = w ++ join ws

-- The value of a digit of `int(text, base)`; `base` and more for any other character.
unfoldable pub digit : ℕ → ℕ
digit c =
    if leb 48 c && leb c 57
    then c - 48
    else if leb 65 c && leb c 70
    then c - 55
    else if leb 97 c && leb c 102
    then c - 87
    else 99

-- The digits of a number behind the value that has been read. An underscore stands between two digits;
-- `pending` says that a digit has to follow.
unfoldable pub number : ℕ → Bool → ℕ → Text → Option ℕ
number base pending value [] = if pending then none else some value
number base pending value (c ∷ s) = elim (ltb (digit c) base) [
  | true ↦ number base false (value * base + digit c) s
  | false ↦ elim (c == 95 && not pending) [ true ↦ number base true value s | false ↦ none ]
]

-- One underscore may follow the prefix of the base.
unfoldable pub after_prefix : Text → Option ℕ
unfolding number
after_prefix [] = none
after_prefix (c ∷ s) = if c == 95 then number 16 true 0 s else number 16 true 0 (c ∷ s)

unfoldable pub unsigned_hex : Text → Option ℕ
unfolding number after_prefix
unsigned_hex [] = none
unsigned_hex (c ∷ []) = number 16 true 0 (c ∷ [])
unsigned_hex (c ∷ d ∷ s) =
    if c == 48 && (d == 120 || d == 88) then after_prefix s else number 16 true 0 (c ∷ d ∷ s)

abbrev pub positive : Option ℕ → Option ℤ
positive none = none
positive (some n) = some (pos n)

abbrev pub negative : Option ℕ → Option ℤ
negative none = none
negative (some zero) = some (pos 0)
negative (some (suc n)) = some (negsuc n)

unfoldable pub signed_hex : Text → Option ℤ
unfolding unsigned_hex
signed_hex [] = none
signed_hex (c ∷ s) =
    if c == 45
    then negative (unsigned_hex s)
    else if c == 43
    then positive (unsigned_hex s)
    else positive (unsigned_hex (c ∷ s))

-- `int(text, 16)`; a ValueError is `none`.
unfoldable pub int_hex : Text → Option ℤ
unfolding signed_hex strip
int_hex s = signed_hex (strip s)

unfoldable pub signed_decimal : Text → Option ℤ
unfolding number
signed_decimal [] = none
signed_decimal (c ∷ s) =
    if c == 45
    then negative (number 10 true 0 s)
    else if c == 43
    then positive (number 10 true 0 s)
    else positive (number 10 true 0 (c ∷ s))

-- `int(text)`; a ValueError is `none`.
unfoldable pub int_decimal : Text → Option ℤ
unfolding signed_decimal strip
int_decimal s = signed_decimal (strip s)

unfoldable pub all_digits : Text → Bool
all_digits [] = true
all_digits (c ∷ s) = (leb 48 c && leb c 57) && all_digits s

-- `text.isdigit()`
unfoldable pub is_digit : Text → Bool
unfolding all_digits
is_digit s = not (is_empty s) && all_digits s

unfoldable pub all_hex : Text → Bool
all_hex [] = true
all_hex (c ∷ s) = ltb (digit c) 16 && all_hex s

abbrev pub is_ascii_space : ℕ → Bool
is_ascii_space c = (leb 9 c && leb c 13) || c == 32

abbrev pub push_byte : ℕ → Option (List ℕ) → Option (List ℕ)
push_byte b none = none
push_byte b (some bs) = some (b ∷ bs)

-- `bytes.fromhex(text)`; a ValueError is `none`.
unfoldable pub from_hex : Text → Option (List ℕ)
from_hex [] = some []
from_hex (a ∷ []) = if is_ascii_space a then some [] else none
from_hex (a ∷ b ∷ s) = elim (is_ascii_space a) [
  | true ↦ from_hex (b ∷ s)
  | false ↦ elim (ltb (digit a) 16 && ltb (digit b) 16) [
    | true ↦ push_byte (digit a * 16 + digit b) (from_hex s)
    | false ↦ none
  ]
]

-- A digit as `format(n, "X")` writes it.
unfoldable pub hex_digit : ℕ → ℕ
hex_digit n = if ltb n 10 then n + 48 else n + 55

-- `data.hex().upper()`
unfoldable pub hex_bytes : List ℕ → Text
hex_bytes [] = []
hex_bytes (b ∷ bs) = hex_digit (b / 16) ∷ hex_digit (b % 16) ∷ hex_bytes bs

-- `format(n, "X")`, with a bound on the number of digits.
unfoldable pub hex_number : ℕ → ℕ → Text
hex_number zero n = []
hex_number (suc fuel) n =
    let rest = hex_number fuel (n / 16) in
    if ltb n 16 then hex_digit n ∷ [] else rest ++ hex_digit (n % 16) ∷ []

abbrev pub zeros : ℕ → Text
zeros zero = []
zeros (suc n) = 48 ∷ zeros n

-- `format(n, "03X")`; a number has fewer digits than one more than itself.
unfoldable pub format_03x : ℕ → Text
unfolding hex_number
format_03x n = let s = hex_number (suc n) n in zeros (3 - length s) ++ s
