-- ===== src/Obd.antt =====
-- agent/vehicle_agent/providers/standard_obd.py: the answers of a vehicle to the standard OBD requests.
mod Provider
mod Lines
mod Answers
mod Raising
mod Codes
mod Vin
mod Tests
use vehinode.Prelude.{
  ℕ, ◌+◌, ◌/◌, ◌%◌, Bool, true, false, not, ◌&&◌, ◌||◌, Option, none, some, List, [], ◌∷◌, ◌++◌,
  length, take, drop, ◌==◌, leb, if◌then◌else◌,
}
use vehinode.Prelude.Int.{ℤ, pos, negsuc}
use vehinode.Text.{Text, replace, split, join, int_hex, from_hex, hex_bytes, hex_digit}

-- `if parts and len(parts[0]) in {3, 8}: parts.pop(0)`
unfoldable pub pop_header : List Text → List Text
pop_header [] = []
pop_header (w ∷ ws) = if length w == 3 || length w == 8 then ws else w ∷ ws

abbrev pub pop_small : Option ℤ → List Text → List Text → Option (List Text)
pop_small none all rest = none
pop_small (some (pos n)) all rest = some (if leb n 8 then rest else all)
pop_small (some (negsuc n)) all rest = some rest

-- The word that holds the length of a single frame is dropped; a ValueError of `int` is `none`.
unfoldable pub pop_length : List Text → Option (List Text)
pop_length [] = some []
pop_length (w ∷ ws) = if length w == 2 then pop_small (int_hex w) (w ∷ ws) ws else some (w ∷ ws)

abbrev pub bytes_of : Option (List Text) → Option (List ℕ)
bytes_of none = none
bytes_of (some parts) = from_hex (join parts)

-- The bytes of a line; a ValueError is `none`.
unfoldable pub answer_bytes : Text → Option (List ℕ)
unfolding pop_header pop_length
answer_bytes line = bytes_of (pop_length (pop_header (split line)))

-- The bytes behind the first place where the two are next to each other.
unfoldable pub behind_pair : ℕ → ℕ → List ℕ → Option (List ℕ)
behind_pair a b [] = none
behind_pair a b (x ∷ []) = none
behind_pair a b (x ∷ y ∷ rest) =
    let later = behind_pair a b (y ∷ rest) in if x == a && y == b then some rest else later

abbrev pub behind_answer : ℕ → ℕ → Option (List ℕ) → Option (List ℕ)
behind_answer mode pid none = none
behind_answer mode pid (some raw) = behind_pair (mode + 0x40) pid raw

abbrev pub or_else : {A : Type 0} → Option A → Option A → Option A
or_else none later = later
or_else (some a) later = some a

-- The mode and the PID are such that `bytes((mode + 0x40, pid))` exists.
unfoldable pub parse_obd_response : ℕ → ℕ → List Text → Option (List ℕ)
unfolding answer_bytes behind_pair
parse_obd_response mode pid [] = none
parse_obd_response mode pid (line ∷ lines) =
    or_else (behind_answer mode pid (answer_bytes line)) (parse_obd_response mode pid lines)

unfoldable pub line_payload : Text → Option (List ℕ)
unfolding pop_header
line_payload line = from_hex (join (pop_header (split (replace 58 32 line))))

-- What is left of a chunk behind the marker of a VIN and the number of the item.
abbrev pub behind_item : Option (List ℕ) → List ℕ → List ℕ
behind_item none chunk = chunk
behind_item (some []) chunk = []
behind_item (some (x ∷ rest)) chunk = if x == 1 || x == 2 || x == 3 then rest else x ∷ rest

-- The data of one frame, by the kind that its first byte tells.
unfoldable pub frame_data : List ℕ → List ℕ
frame_data [] = []
frame_data (pci ∷ rest) =
    if pci / 16 == 1
    then drop 1 rest
    else if pci / 16 == 2
    then rest
    else if leb pci 8
    then rest
    else pci ∷ rest

unfoldable pub vin_chunk : Option (List ℕ) → List ℕ
unfolding frame_data behind_pair
vin_chunk none = []
vin_chunk (some []) = []
vin_chunk (some (pci ∷ rest)) =
    let chunk = frame_data (pci ∷ rest) in behind_item (behind_pair 0x49 0x02 chunk) chunk

unfoldable pub vin_payload : List Text → List ℕ
unfolding vin_chunk line_payload
vin_payload [] = []
vin_payload (line ∷ lines) = vin_chunk (line_payload line) ++ vin_payload lines

-- `bytes(value for value in payload if 32 <= value <= 126)`
unfoldable pub printable : List ℕ → List ℕ
printable [] = []
printable (b ∷ bs) = let rest = printable bs in if leb 32 b && leb b 126 then b ∷ rest else rest

unfoldable pub parse_vin_response : List Text → Option Text
unfolding printable vin_payload
parse_vin_response lines =
    let vin = printable (vin_payload lines) in
    if leb 17 (length vin) then some (take 17 vin) else none

-- `raw.find(value)`, as the bytes behind it.
unfoldable pub behind_byte : ℕ → List ℕ → Option (List ℕ)
behind_byte a [] = none
behind_byte a (x ∷ rest) = let later = behind_byte a rest in if x == a then some rest else later

-- "PCBU"
abbrev pub family : ℕ → ℕ
family n = if n == 0 then 80 else if n == 1 then 67 else if n == 2 then 66 else 85

unfoldable pub dtc_text : ℕ → ℕ → Text
dtc_text first second =
    family (first / 64)
    ∷ hex_digit (first / 16 % 4)
    ∷ hex_digit (first % 16)
    ∷ hex_bytes (second ∷ [])

unfoldable pub dtc_codes : List ℕ → List Text
unfolding dtc_text
dtc_codes [] = []
dtc_codes (first ∷ []) = []
dtc_codes (first ∷ second ∷ rest) =
    let later = dtc_codes rest in
    if first == 0 && second == 0 then later else dtc_text first second ∷ later

abbrev pub line_codes : Option (List ℕ) → List Text
line_codes none = []
line_codes (some content) = dtc_codes content

abbrev pub behind_marker : Option (List ℕ) → Option (List ℕ)
behind_marker none = none
behind_marker (some raw) = behind_byte 0x43 raw

unfoldable pub parse_dtc_response : List Text → List Text
unfolding line_payload behind_byte dtc_codes
parse_dtc_response [] = []
parse_dtc_response (line ∷ lines) =
    line_codes (behind_marker (line_payload line)) ++ parse_dtc_response lines
