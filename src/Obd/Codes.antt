-- ===== src/Obd/Codes.antt =====
-- `parse_dtc_response` of agent/vehicle_agent/providers/standard_obd.py on a list of trouble codes.
use vehinode.Prelude.{
  ℕ, ◌+◌, ◌*◌, ◌/◌, ◌%◌, ◌<◌, ◌≤◌, ◌≡◌, refl, ap, ◌∙◌, arith, Bool, true, false, not, ◌&&◌, some,
  List, [], ◌∷◌, ◌++◌, map, ◌==◌, All, Bool-cases, inl, inr,
}
use mathlib.Core.List.{append-nil}
use vehinode.Prelude.Table.{select}
use vehinode.Text.{Text, hex_digit, hex_bytes}
use vehinode.Obd.{
  behind_byte, behind_marker, line_codes, family, dtc_text, dtc_codes, parse_dtc_response,
}
use vehinode.Obd.Lines.{line_of, IsHeader, AreBytes, line_payload-line_of}

-- A trouble code: the number of its family, its first digit, its second digit, and the last two.
pub record Code : Type 0 where
  pub system : ℕ
  pub first : ℕ
  pub second : ℕ
  pub last : ℕ

pub record IsCode (c : Code) : Type 0 where
  pub system : c.system < 4
  pub first : c.first < 4
  pub second : c.second < 16
  pub last : c.last < 256

-- The two bytes of a code.
unfoldable pub code_bytes : List Code → List ℕ
code_bytes [] = []
code_bytes (c ∷ cs) = (c.system * 64 + c.first * 16 + c.second) ∷ c.last ∷ code_bytes cs

-- As a code is printed.
unfoldable pub show_code : Code → Text
show_code c = family c.system ∷ hex_digit c.first ∷ hex_digit c.second ∷ hex_bytes (c.last ∷ [])

-- A code of two zero bytes fills up a frame.
abbrev pub is_filled : Code → Bool
is_filled c = not (((c.system == 0 && c.first == 0) && c.second == 0) && c.last == 0)

dtc_text-Code :
    (c : Code) → IsCode c → dtc_text (c.system * 64 + c.first * 16 + c.second) c.last ≡ show_code c
unfolding dtc_text show_code
dtc_text-Code c is =
    let n = c.system * 64 + c.first * 16 + c.second in
    let system : n / 64 ≡ c.system = omega (arith, is.system, is.first, is.second) in
    let first : n / 16 % 4 ≡ c.first = omega (arith, is.system, is.first, is.second) in
    let second : n % 16 ≡ c.second = omega (arith, is.system, is.first, is.second) in
    let text = λ (a b d : ℕ). family a ∷ hex_digit b ∷ hex_digit d ∷ hex_bytes (c.last ∷ []) in
    ap (λ a. text a (n / 16 % 4) (n % 16)) system
    ∙ ap (λ b. text c.system b (n % 16)) first
    ∙ ap (λ d. text c.system c.first d) second

dtc_codes-code_bytes :
    (cs : List Code)
    → All IsCode cs
    → dtc_codes (code_bytes cs) ≡ map show_code (select is_filled cs)
unfolding dtc_codes code_bytes select
dtc_codes-code_bytes [] all = refl
dtc_codes-code_bytes (c ∷ cs) all =
    let text = dtc_text-Code c all.0 in
    let rest = dtc_codes-code_bytes cs all.1 in
    elim (Bool-cases (is_filled c)) [
      | inl filled ↦
          let both : (c.system * 64 + c.first * 16 + c.second == 0 && c.last == 0) ≡ false =
            ground arith in
          ground arith
      | inr empty ↦
          let both : (c.system * 64 + c.first * 16 + c.second == 0 && c.last == 0) ≡ true =
            ground arith in
          ground arith
    ]

AreBytes-code_bytes : (cs : List Code) → All IsCode cs → AreBytes (code_bytes cs)
unfolding code_bytes
AreBytes-code_bytes [] all = tt
AreBytes-code_bytes (c ∷ cs) all = (
  omega (arith, all.0.system, all.0.first, all.0.second),
  (all.0.last, AreBytes-code_bytes cs all.1),
)

-- The answer to a request for trouble codes, a length and the codes behind the marker 0x43, gives the codes
-- as they are printed, in their order and without those that fill up the frame.
pub parse_dtc_response-line_of :
    (header : Text) (n : ℕ) (codes : List Code)
    → IsHeader header
    → n ≤ 8
    → All IsCode codes
    → parse_dtc_response (line_of header (n ∷ 0x43 ∷ code_bytes codes) ∷ [])
      ≡ map show_code (select is_filled codes)
unfolding parse_dtc_response behind_byte
parse_dtc_response-line_of header n codes is small all =
    let read =
      line_payload-line_of header (n ∷ 0x43 ∷ code_bytes codes) is
        (omega arith, (omega arith, AreBytes-code_bytes codes all)) in
    let found : behind_byte 0x43 (n ∷ 0x43 ∷ code_bytes codes) ≡ some (code_bytes codes) =
      ground arith in
    ap (λ o. line_codes (behind_marker o) ++ []) read
    ∙ ap (λ o. line_codes o ++ []) found
    ∙ append-nil (dtc_codes (code_bytes codes))
    ∙ dtc_codes-code_bytes codes all
