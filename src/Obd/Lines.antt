-- ===== src/Obd/Lines.antt =====
-- The lines of an adapter that prints headers and spaces, and what standard_obd.py reads in them.
use vehinode.Prelude.{
  ℕ, ◌<◌, ◌≤◌, ◌≡◌, refl, ap, ◌∙◌, arith, true, false, ◌||◌, some, List, [], ◌∷◌, ◌++◌, map, length,
  ◌/◌, ◌%◌, ◌==◌, All,
}
use vehinode.Prelude.Int.{pos}
use mathlib.Core.Path.{ap₂}
use vehinode.Text.{
  Text, is_empty, is_space, lstrip, rstrip, strip, replace, split, split_word, join, digit, number,
  unsigned_hex, after_prefix, signed_hex, int_hex, from_hex, hex_bytes, hex_digit,
}
use vehinode.Text.Words.{is_plain, replace-plain, replace-append, split_word-plain}
use vehinode.Text.Hex.{from_hex-hex_bytes, is_plain-hex_bytes}
use vehinode.Obd.{pop_header, pop_length, bytes_of, answer_bytes, line_payload}

pub record IsWord (w : Text) : Type 0 where
  pub plain : is_plain w ≡ true
  pub filled : is_empty w ≡ false

-- The words behind the first one, each behind a space.
abbrev pub behind : List Text → Text
behind [] = []
behind (w ∷ ws) = 32 ∷ w ++ behind ws

abbrev pub hex_word : ℕ → Text
hex_word b = hex_bytes (b ∷ [])

-- A header, and bytes.
unfoldable pub line_of : Text → List ℕ → Text
line_of header bs = header ++ behind (map hex_word bs)

-- The header of a frame: three digits or eight.
pub record IsHeader (header : Text) : Type 0 where
  pub word : IsWord header
  pub digits : (length header == 3 || length header == 8) ≡ true

abbrev pub AreBytes : List ℕ → Type 0
AreBytes bs = All (λ b. b < 256) bs

split_word-behind :
    (w : Text) (ws : List Text) → IsWord w → All IsWord ws → split_word [] (w ++ behind ws) ≡ w ∷ ws
unfolding split_word is_space
split_word-behind (c ∷ s) [] is all = split_word-plain [] (c ∷ s) [] is.plain
split_word-behind (c ∷ s) (v ∷ vs) is all =
    split_word-plain [] (c ∷ s) (32 ∷ v ++ behind vs) is.plain
    ∙ ap (λ ts. (c ∷ s) ∷ ts) (split_word-behind v vs all.0 all.1)
split_word-behind [] ws is all = absurd (ground (arith, is.filled))

replace-behind : (ws : List Text) → All IsWord ws → replace 58 32 (behind ws) ≡ behind ws
unfolding replace
replace-behind [] all = refl
replace-behind (w ∷ ws) all =
    ap (λ t. 32 ∷ t)
      (replace-append w (behind ws)
        ∙ ap₂ ◌++◌ (replace-plain w all.0.plain) (replace-behind ws all.1))

hex_word-IsWord : (b : ℕ) → b < 256 → IsWord (hex_word b)
unfolding hex_bytes
hex_word-IsWord b h = record { plain = is_plain-hex_bytes (b ∷ []) (h, tt); filled = refl }

AreWords : (bs : List ℕ) → AreBytes bs → All IsWord (map hex_word bs)
AreWords [] all = tt
AreWords (b ∷ bs) all = (hex_word-IsWord b all.0, AreWords bs all.1)

join-hex_word : (bs : List ℕ) → join (map hex_word bs) ≡ hex_bytes bs
unfolding join hex_bytes
join-hex_word [] = refl
join-hex_word (b ∷ bs) = ap (λ t. hex_digit (b / 16) ∷ hex_digit (b % 16) ∷ t) (join-hex_word bs)

split-line_of :
    (header : Text) (bs : List ℕ)
    → IsHeader header
    → AreBytes bs
    → split (line_of header bs) ≡ header ∷ map hex_word bs
unfolding split line_of
split-line_of header bs is all =
    split_word-behind header (map hex_word bs) is.word (AreWords bs all)

pop_header_lem : (header : Text) (ws : List Text) → IsHeader header → pop_header (header ∷ ws) ≡ ws
unfolding pop_header
pop_header_lem header ws is = let digits = is.digits in ground arith

replace-line_of :
    (header : Text) (bs : List ℕ)
    → IsHeader header
    → AreBytes bs
    → replace 58 32 (line_of header bs) ≡ line_of header bs
unfolding line_of
replace-line_of header bs is all =
    replace-append header (behind (map hex_word bs))
    ∙ ap₂ ◌++◌ (replace-plain header is.word.plain)
        (replace-behind (map hex_word bs) (AreWords bs all))

pub line_payload-line_of :
    (header : Text) (bs : List ℕ)
    → IsHeader header
    → AreBytes bs
    → line_payload (line_of header bs) ≡ some bs
unfolding line_payload
line_payload-line_of header bs is all =
    ap (λ t. from_hex (join (pop_header (split t)))) (replace-line_of header bs is all)
    ∙ ap (λ ws. from_hex (join (pop_header ws))) (split-line_of header bs is all)
    ∙ ap (λ ws. from_hex (join ws)) (pop_header_lem header (map hex_word bs) is)
    ∙ ap from_hex (join-hex_word bs)
    ∙ from_hex-hex_bytes bs all

int_hex_small : (n : ℕ) → n ≤ 8 → int_hex (hex_word n) ≡ some (pos n)
unfolding hex_bytes hex_digit int_hex signed_hex strip lstrip rstrip is_space unsigned_hex number
    digit after_prefix
int_hex_small n h = ground arith

pop_length_lem : (n : ℕ) (ws : List Text) → n ≤ 8 → pop_length (hex_word n ∷ ws) ≡ some ws
unfolding pop_length
pop_length_lem n ws small =
    let value = int_hex_small n small in
    let two : length (hex_word n) ≡ 2 = unfold hex_bytes in refl in ground arith

pub answer_bytes-line_of :
    (header : Text) (n : ℕ) (bs : List ℕ)
    → IsHeader header
    → n ≤ 8
    → AreBytes bs
    → answer_bytes (line_of header (n ∷ bs)) ≡ some bs
unfolding answer_bytes
answer_bytes-line_of header n bs is small all =
    ap (λ ws. bytes_of (pop_length (pop_header ws)))
      (split-line_of header (n ∷ bs) is (omega arith, all))
    ∙ ap (λ ws. bytes_of (pop_length ws)) (pop_header_lem header (hex_word n ∷ map hex_word bs) is)
    ∙ ap bytes_of (pop_length_lem n (map hex_word bs) small)
    ∙ ap from_hex (join-hex_word bs)
    ∙ from_hex-hex_bytes bs all
