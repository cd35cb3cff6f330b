-- ===== src/Can/Declared.antt =====
-- Data that the parser takes for the length of the data.
use vehinode.Prelude.{
  ℕ, ◌+◌, ◌*◌, ◌/◌, ◌%◌, ◌<◌, ◌≤◌, ◌≡◌, ◌⊎◌, inl, inr, refl, arith, true, false, ◌&&◌, none, some,
  List, [], ◌∷◌, leb, ltb, Bool-cases, if◌then◌else◌, All,
}
use vehinode.Text.{digit, hex_digit, number, all_digits, is_digit, hex_bytes}
use vehinode.Can.{declared_length}
use vehinode.Can.Bytes.{big_endian}

-- A decimal and a hexadecimal reading of the same digits: equal up to 8, or both above.
abbrev IsSame : ℕ → ℕ → Type 0
IsSame v w = ((v ≡ w) × (w ≤ 8)) ⊎ ((8 < v) × (8 < w))

big_endian-le : (v : ℕ) (bs : List ℕ) → 8 < v → 8 < big_endian v bs
unfolding big_endian
big_endian-le v [] h = h
big_endian-le v (b ∷ bs) h = big_endian-le (v * 256 + b) bs (omega arith)

-- A digit above 9 is no decimal digit.
is_decimal : (n : ℕ) → n < 16 → (leb 48 (hex_digit n) && leb (hex_digit n) 57) ≡ ltb n 10
unfolding hex_digit
is_decimal n h = ground arith

digit_lem : (n : ℕ) → n < 16 → digit (hex_digit n) ≡ n
unfolding digit hex_digit
digit_lem n h = ground arith

letters :
    (bs : List ℕ) (v : ℕ)
    → All (λ b. b < 256) bs
    → all_digits (hex_bytes bs) ≡ false
    → 8 < big_endian v bs
unfolding all_digits hex_bytes big_endian
letters [] v h e = absurd (ground arith)
letters (b ∷ bs) v h e = elim (Bool-cases (ltb (b / 16) 10 && ltb (b % 16) 10)) [
  | inl decimal ↦
      letters bs (v * 256 + b) h.1
        (ground (arith, is_decimal (b / 16) (omega arith), is_decimal (b % 16) (omega arith)))
  | inr letter ↦ big_endian-le (v * 256 + b) bs (ground arith)
]

IsSame-step :
    (v w b : ℕ)
    → IsSame v w
    → b / 16 < 10
    → b % 16 < 10
    → IsSame ((v * 10 + b / 16) * 10 + b % 16) (w * 256 + b)
IsSame-step v w b (inl (same, small)) hi lo = elim (Bool-cases (leb (w * 256 + b) 8)) [
  | inl le ↦ let le' : w * 256 + b ≤ 8 = ground arith in inl (omega arith, le')
  | inr gt ↦ let gt' : 8 < w * 256 + b = ground arith in inr (omega arith, gt')
]
IsSame-step v w b (inr (large, large')) hi lo = inr (omega arith, omega arith)

digits :
    (bs : List ℕ) (v w : ℕ)
    → All (λ b. b < 256) bs
    → all_digits (hex_bytes bs) ≡ true
    → IsSame v w
    → (d : ℕ) × (number 10 false v (hex_bytes bs) ≡ some d) × IsSame d (big_endian w bs)
unfolding all_digits hex_bytes big_endian number
digits [] v w h e s = (v, refl, s)
digits (b ∷ bs) v w h e s =
    let hi = is_decimal (b / 16) (omega arith) in
    let lo = is_decimal (b % 16) (omega arith) in
    let (d, read, same) =
      digits bs ((v * 10 + b / 16) * 10 + b % 16) (w * 256 + b) h.1 (ground arith)
        (IsSame-step v w b s (ground arith) (ground arith)) in
    (d, ground (arith, digit_lem (b / 16) (omega arith), digit_lem (b % 16) (omega arith)), same)

-- A first digit makes the number complete.
digits_first :
    (b : ℕ) (bs : List ℕ)
    → All (λ c. c < 256) (b ∷ bs)
    → all_digits (hex_bytes (b ∷ bs)) ≡ true
    → (d : ℕ) × (number 10 true 0 (hex_bytes (b ∷ bs)) ≡ some d) × IsSame d (big_endian 0 (b ∷ bs))
unfolding all_digits hex_bytes number
digits_first b bs h e =
    let hi = is_decimal (b / 16) (omega arith) in
    let (d, read, same) = digits (b ∷ bs) 0 0 h e (inl (refl, omega arith)) in
    (d, ground (arith, digit_lem (b / 16) (omega arith)), same)

-- The text of the data is a length up to 8 exactly when its bytes, as one number, are at most 8.
pub declared_length-hex_bytes :
    (b : ℕ) (bs : List ℕ)
    → All (λ c. c < 256) (b ∷ bs)
    → declared_length (hex_bytes (b ∷ bs))
      ≡ (if leb (big_endian 0 (b ∷ bs)) 8 then some (big_endian 0 (b ∷ bs)) else none)
unfolding declared_length is_digit hex_bytes
declared_length-hex_bytes b bs h = elim (Bool-cases (all_digits (hex_bytes (b ∷ bs)))) [
  | inl decimal ↦
      let (d, read, same) = digits_first b bs h decimal in
      elim same [ inl (equal, small) ↦ ground arith | inr (above, above') ↦ ground arith ]
  | inr letter ↦ let large = letters (b ∷ bs) 0 h letter in ground arith
]
