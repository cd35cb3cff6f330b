-- ===== src/Obd/Tests.antt =====
-- The theorems on OBD answers at sample lines.
use vehinode.Prelude.{
  ◌≡◌, refl, ℕ, arith, true, false, Option, none, some, List, [], ◌∷◌, ◌++◌, ◌&&◌, ◌||◌, is_none,
  map,
}
use vehinode.Prelude.Table.{any, find, select}
use vehinode.Json.{Json, null}
use vehinode.Text.{
  Text, codes, is_space, split, join, int_hex, from_hex, hex_bytes, hex_digit, digit,
}
use vehinode.Obd.{parse_obd_response, parse_dtc_response, parse_vin_response}
use vehinode.Obd.Lines.{line_of, IsHeader}
use vehinode.Obd.Answers.{parse_obd_response-line_of}
use vehinode.Obd.Codes.{Code, IsCode, code_bytes, show_code, is_filled, parse_dtc_response-line_of}
use vehinode.Obd.Vin.{
  Consecutive, IsConsecutive, ArePrintable, consecutive_line, first_line, contents,
  parse_vin_response-frames,
}
use vehinode.Obd.Provider.{Value, pid_decoders, opens, read_metrics, decode_standard_pid}
use vehinode.Obd.Raising.{is_short, read_metrics_raises}

abbrev header : Text
header = codes "7E8"

header-IsHeader : IsHeader header
unfolding is_space
header-IsHeader = record { word = record { plain = refl; filled = refl }; digits = refl }

unanswered : parse_obd_response 1 0x0D (codes "SEARCHING..." ∷ []) ≡ none
unfolding parse_obd_response split is_space from_hex join digit
unanswered = refl

-- The speed, behind a line that is no answer.
parse_obd_response-line_of_example :
    parse_obd_response 1 0x0D
      (codes "SEARCHING..." ∷ line_of header (3 ∷ 0x41 ∷ 0x0D ∷ 50 ∷ []) ∷ [])
    ≡ some (50 ∷ [])
parse_obd_response-line_of_example =
    parse_obd_response-line_of 1 0x0D (codes "SEARCHING..." ∷ []) [] header 3 (50 ∷ []) unanswered
      header-IsHeader (omega arith) (omega arith, (omega arith, (omega arith, tt)))

-- P0301, and the two zero bytes behind it.
abbrev misfire : Code
misfire = record { system = 0; first = 0; second = 3; last = 1 }

abbrev filling : Code
filling = record { system = 0; first = 0; second = 0; last = 0 }

misfire-IsCode : IsCode misfire
misfire-IsCode = record {
  system = omega arith;
  first = omega arith;
  second = omega arith;
  last = omega arith;
}

filling-IsCode : IsCode filling
filling-IsCode = record {
  system = omega arith;
  first = omega arith;
  second = omega arith;
  last = omega arith;
}

parse_dtc_response-line_of_example :
    parse_dtc_response (line_of header (5 ∷ 0x43 ∷ code_bytes (misfire ∷ filling ∷ [])) ∷ [])
    ≡ map show_code (select is_filled (misfire ∷ filling ∷ []))
parse_dtc_response-line_of_example =
    parse_dtc_response-line_of header 5 (misfire ∷ filling ∷ []) header-IsHeader (omega arith)
      (misfire-IsCode, (filling-IsCode, tt))

shown : map show_code (select is_filled (misfire ∷ filling ∷ [])) ≡ codes "P0301" ∷ []
unfolding show_code select hex_bytes hex_digit
shown = refl

-- "VF31NZKYZHU800769" in three frames.
abbrev start : List ℕ
start = codes "VF3"

abbrev next : Consecutive
next = record { header = header; index = 1; content = codes "1NZKYZH" }

abbrev last : Consecutive
last = record { header = header; index = 2; content = codes "U800769" }

start-ArePrintable : ArePrintable start
start-ArePrintable = ground arith

next-IsConsecutive : IsConsecutive next
next-IsConsecutive = record {
  header = header-IsHeader;
  index = omega arith;
  content = ground arith;
}

last-IsConsecutive : IsConsecutive last
last-IsConsecutive = record {
  header = header-IsHeader;
  index = omega arith;
  content = ground arith;
}

parse_vin_response-frames_example :
    parse_vin_response (first_line header 20 start ∷ map consecutive_line (next ∷ last ∷ []))
    ≡ some (start ++ contents (next ∷ last ∷ []))
unfolding contents
parse_vin_response-frames_example =
    parse_vin_response-frames header 20 start (next ∷ last ∷ []) header-IsHeader (omega arith)
      start-ArePrintable (next-IsConsecutive, (last-IsConsecutive, tt)) refl

-- A vehicle that answers every request with the load but without its byte.
abbrev truncated : ℕ → Option (List Text)
truncated pid = some (codes "41 04" ∷ [])

abbrev unrounded : Value → Json
unrounded v = null

read_metrics_raises_example :
    is_none (read_metrics unrounded truncated opens false).0
    ≡ ((true && false) || ((false || true) && any (is_short unrounded truncated) pid_decoders))
read_metrics_raises_example = read_metrics_raises unrounded truncated opens false (λ pid. refl)

is_raised : any (is_short unrounded truncated) pid_decoders ≡ true
unfolding any parse_obd_response split is_space from_hex join digit decode_standard_pid find int_hex
is_raised = refl
