-- ===== src/Can/Compact.antt =====
-- Lines without spaces, and what the monitor makes of them.
use vehinode.Prelude.{
  ℕ, zero, suc, ◌-◌, ◌%◌, ◌≤◌, ◌≡◌, refl, arith, true, List, [], ◌∷◌, ◌++◌, drop, Bool-cases, inl,
  inr, length, Result, ok, err,
}
use vehinode.Json.{Double}
use vehinode.Text.{Text, digit, strip, all_hex}
use vehinode.Text.Words.{clean-plain, split-plain, strip-plain}
use vehinode.Text.Hex.{is_plain-all_hex, from_hex_odd}
use vehinode.Can.{
  CanFrame, FrameError, adapter_error, value_error, parse_compact, parse_words, parse_can_frame,
  Received, heard, is_data, monitor,
}

all_hex-drop : (n : ℕ) (s : Text) → all_hex s ≡ true → all_hex (drop n s) ≡ true
unfolding all_hex
all_hex-drop zero s h = h
all_hex-drop (suc n) [] h = h
all_hex-drop (suc n) (c ∷ s) h = all_hex-drop n s (ground arith)

length-drop : (n : ℕ) (s : Text) → length (drop n s) ≡ length s - n
length-drop zero s = omega arith
length-drop (suc n) [] = omega arith
length-drop (suc n) (c ∷ s) = omega (arith, length-drop n s)

-- The bytes of a frame with an identifier of eight digits are an even number of digits.
pub record IsExtended (line : Text) : Type 0 where
  pub hex : all_hex line ≡ true
  pub long : 4 ≤ length line
  pub even : length line % 2 ≡ 0

parse_compact-extended : (s : Text) → IsExtended s → parse_compact s ≡ err value_error
unfolding parse_compact
parse_compact-extended s h = ground (
  arith,
  from_hex_odd (drop 3 s) (all_hex-drop 3 s h.hex) (omega (arith, length-drop 3 s, h.long, h.even)),
)

-- A line of hexadecimal digits without spaces, of an even number of four or more, makes the parser
-- raise a ValueError: the identifier is taken to have three digits. Such is every line with an
-- identifier of eight digits and whole bytes.
pub parse_can_frame-extended :
    (s : Text) (timestamp : Double) → IsExtended s → parse_can_frame s timestamp ≡ err value_error
unfolding parse_can_frame parse_words
parse_can_frame-extended [] timestamp h = absurd (omega (arith, h.long))
parse_can_frame-extended (c ∷ s) timestamp h =
    let p = is_plain-all_hex (c ∷ s) h.hex in
    rw (clean-plain (c ∷ s) p) (rw (split-plain c s p) (rw (parse_compact-extended (c ∷ s) h) refl))

extended-is_data : (s : Text) → IsExtended s → is_data s ≡ true
unfolding all_hex digit
extended-is_data [] h = absurd (omega (arith, h.long))
extended-is_data (c ∷ s) h = let hex = h.hex in ground arith

heard_error : (r : Result FrameError CanFrame) → heard r (err value_error) ≡ err value_error
unfolding heard
heard_error (ok f) = refl
heard_error (err adapter_error) = refl
heard_error (err value_error) = refl

-- A line of hexadecimal digits only, of an even number of four or more, ends the monitor with the
-- ValueError that the parser raises for it, which drops the frames of every other line: it is not
-- the AdapterError, which would skip only that line.
pub monitor-extended :
    (before after : List Received) (r : Received)
    → IsExtended r.line
    → monitor (before ++ r ∷ after) ≡ err value_error
unfolding monitor
monitor-extended [] after r h = rw (strip-plain r.line (is_plain-all_hex r.line h.hex)) (
    rw (extended-is_data r.line h)
      (rw (parse_can_frame-extended r.line r.arrived h) (unfold heard in refl)))
monitor-extended (x ∷ before) after r h = elim (Bool-cases (is_data (strip x.line))) [
  | inl listen ↦ rw listen (
      rw (monitor-extended before after r h)
        (heard_error (parse_can_frame (strip x.line) x.arrived)))
  | inr skip ↦ rw skip (monitor-extended before after r h)
]
