-- ===== src/Text/Hex.antt =====
-- Numbers and bytes as hexadecimal digits: what is printed is read back.
use mathlib.Core.List.{append-nil, append_assoc}
use vehinode.Prelude.{
  ℕ, zero, suc, ◌+◌, ◌-◌, ◌*◌, ◌/◌, ◌%◌, ◌<◌, ◌≡◌, refl, Bool, true, false, ◌&&◌, Option, some,
  none, List, [], ◌∷◌, ◌++◌, ◌==◌, ltb, Bool-cases, inl, inr, arith, All, length, IfSome, subst,
}
use vehinode.Prelude.Int.{pos}
use vehinode.Text.{
  Text, is_space, is_ascii_space, digit, hex_digit, number, from_hex, push_byte, hex_bytes,
  hex_number, zeros, format_03x, all_hex, after_prefix, unsigned_hex, signed_hex, int_hex,
}
use vehinode.Text.Words.{is_plain, is_plain-append, strip-plain}

-- A hexadecimal digit is read as its value, and is no white space.
pub hex_digit_lem :
    (n : ℕ)
    → n < 16
    → (digit (hex_digit n) ≡ n)
      × (is_space (hex_digit n) ≡ false)
      × ((hex_digit n == 58) ≡ false)
      × (is_ascii_space (hex_digit n) ≡ false)
unfolding digit hex_digit is_space
hex_digit_lem n h = (ground arith, ground arith, ground arith, ground arith)

pub from_hex-hex_bytes : (bs : List ℕ) → All (λ b. b < 256) bs → from_hex (hex_bytes bs) ≡ some bs
unfolding from_hex hex_bytes
from_hex-hex_bytes [] h = refl
from_hex-hex_bytes (b ∷ bs) h =
    let hi = hex_digit_lem (b / 16) (omega arith) in
    let lo = hex_digit_lem (b % 16) (omega arith) in ground (arith, from_hex-hex_bytes bs h.1)

pub number-hex_number :
    (fuel n : ℕ) (pending : Bool) (rest : Text)
    → n < fuel
    → number 16 pending 0 (hex_number fuel n ++ rest) ≡ number 16 false n rest
unfolding number hex_number
number-hex_number zero n pending rest h = absurd (omega arith)
number-hex_number (suc fuel) n pending rest h = elim (Bool-cases (ltb n 16)) [
  | inl small ↦ let d = hex_digit_lem n (ground arith) in ground arith
  | inr large ↦
      let d = hex_digit_lem (n % 16) (omega arith) in
      ground (
        arith,
        append_assoc (hex_number fuel (n / 16)) (hex_digit (n % 16) ∷ []) rest,
        number-hex_number fuel (n / 16) pending (hex_digit (n % 16) ∷ rest),
      )
]

number-zeros :
    (k fuel n : ℕ) (pending : Bool)
    → n < fuel
    → number 16 pending 0 (zeros k ++ hex_number fuel n) ≡ some n
unfolding number digit
number-zeros zero fuel n pending h =
    ground (arith, number-hex_number fuel n pending [] h, append-nil (hex_number fuel n))
number-zeros (suc k) fuel n pending h = number-zeros k fuel n false h

all_hex-append : (s t : Text) → all_hex s ≡ true → all_hex t ≡ true → all_hex (s ++ t) ≡ true
unfolding all_hex
all_hex-append [] t p q = q
all_hex-append (c ∷ s) t p q = ground (arith, all_hex-append s t)

-- The digits that are printed, which are all plain.
abbrev IsHex : Text → Type 0
IsHex s = (all_hex s ≡ true) × (is_plain s ≡ true)

IsHex-hex_number : (fuel n : ℕ) → IsHex (hex_number fuel n)
unfolding hex_number all_hex
IsHex-hex_number zero n = (refl, refl)
IsHex-hex_number (suc fuel) n = elim (Bool-cases (ltb n 16)) [
  | inl small ↦ let d = hex_digit_lem n (ground arith) in (ground arith, ground arith)
  | inr large ↦
      let d = hex_digit_lem (n % 16) (omega arith) in
      let ih = IsHex-hex_number fuel (n / 16) in
      (
        ground (arith, all_hex-append (hex_number fuel (n / 16)) (hex_digit (n % 16) ∷ [])),
        ground (arith, is_plain-append (hex_number fuel (n / 16)) (hex_digit (n % 16) ∷ [])),
      )
]

IsHex-zeros : (k : ℕ) → IsHex (zeros k)
unfolding all_hex digit is_space
IsHex-zeros zero = (refl, refl)
IsHex-zeros (suc k) = IsHex-zeros k

pub IsHex-format_03x : (n : ℕ) → IsHex (format_03x n)
unfolding format_03x
IsHex-format_03x n =
    let s = hex_number (suc n) n in
    let z = IsHex-zeros (3 - length s) in
    let h = IsHex-hex_number (suc n) n in
    (
      all_hex-append (zeros (3 - length s)) s z.0 h.0,
      is_plain-append (zeros (3 - length s)) s z.1 h.1,
    )

after_prefix-all_hex : (s : Text) → all_hex s ≡ true → after_prefix s ≡ number 16 true 0 s
unfolding after_prefix number all_hex digit
after_prefix-all_hex [] h = refl
after_prefix-all_hex (c ∷ s) h = elim (Bool-cases (c == 95)) [
  | inl underscore ↦ absurd (ground arith)
  | inr other ↦ rw other refl
]

-- A number in the notation of the captures is read back.
pub int_hex-format_03x : (n : ℕ) → int_hex (48 ∷ 120 ∷ format_03x n) ≡ some (pos n)
unfolding int_hex signed_hex unsigned_hex format_03x is_space
int_hex-format_03x n =
    let h = IsHex-format_03x n in
    ground (
      arith,
      strip-plain (48 ∷ 120 ∷ format_03x n),
      after_prefix-all_hex (format_03x n),
      number-zeros (3 - length (hex_number (suc n) n)) (suc n) n true (omega arith),
    )

pub is_plain-hex_bytes : (bs : List ℕ) → All (λ b. b < 256) bs → is_plain (hex_bytes bs) ≡ true
unfolding hex_bytes
is_plain-hex_bytes [] h = refl
is_plain-hex_bytes (b ∷ bs) h =
    let hi = hex_digit_lem (b / 16) (omega arith) in
    let lo = hex_digit_lem (b % 16) (omega arith) in ground (arith, is_plain-hex_bytes bs h.1)

digit_plain :
    (c : ℕ)
    → ltb (digit c) 16 ≡ true
    → (is_space c ≡ false) × ((c == 58) ≡ false) × (is_ascii_space c ≡ false)
unfolding digit is_space
digit_plain c h = (ground arith, ground arith, ground arith)

pub is_plain-all_hex : (s : Text) → all_hex s ≡ true → is_plain s ≡ true
unfolding all_hex
is_plain-all_hex [] h = refl
is_plain-all_hex (c ∷ s) h =
    let p = digit_plain c (ground arith) in ground (arith, is_plain-all_hex s)

-- Half a byte is left over.
pub from_hex_odd : (s : Text) → all_hex s ≡ true → length s % 2 ≡ 1 → from_hex s ≡ none
unfolding from_hex all_hex
from_hex_odd [] h odd = absurd (omega arith)
from_hex_odd (c ∷ []) h odd = let p = digit_plain c (ground arith) in ground arith
from_hex_odd (c ∷ d ∷ s) h odd =
    let p = digit_plain c (ground arith) in
    let ih = from_hex_odd s (ground arith) (omega arith) in ground arith

abbrev AreBytes : List ℕ → Type 0
AreBytes bs = All (λ b. b < 256) bs

push_byte-AreBytes :
    (b : ℕ) (o : Option (List ℕ)) → b < 256 → IfSome AreBytes o → IfSome AreBytes (push_byte b o)
push_byte-AreBytes b none h k = tt
push_byte-AreBytes b (some bs) h k = (h, k)

from_hex-AreBytes : (s : Text) → IfSome AreBytes (from_hex s)
unfolding from_hex
from_hex-AreBytes [] = tt
from_hex-AreBytes (a ∷ []) = elim (Bool-cases (is_ascii_space a)) [
  | inl e ↦ rw (e, IfSome) tt
  | inr e ↦ rw (e, IfSome) tt
]
from_hex-AreBytes (a ∷ b ∷ s) = elim (Bool-cases (is_ascii_space a)) [
  | inl e ↦ rw (e, IfSome) (from_hex-AreBytes (b ∷ s))
  | inr e ↦
      rw (e, IfSome)
        (elim (Bool-cases (ltb (digit a) 16 && ltb (digit b) 16)) [
          | inl hex ↦
              rw (hex, IfSome)
                (push_byte-AreBytes (digit a * 16 + digit b) (from_hex s) (ground arith)
                  (from_hex-AreBytes s))
          | inr other ↦ rw (other, IfSome) tt
        ])
]

-- What is read is bytes.
pub from_hex_bytes : (s : Text) {bs : List ℕ} → from_hex s ≡ some bs → All (λ b. b < 256) bs
from_hex_bytes s {bs} h = subst (IfSome AreBytes) h (from_hex-AreBytes s)
