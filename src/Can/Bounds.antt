-- ===== src/Can/Bounds.antt =====
-- What a frame that was parsed or heard is limited to.
use vehinode.Prelude.{
  ℕ, ◌<◌, ◌≤◌, ◌≡◌, refl, subst, arith, Option, none, some, List, [], ◌∷◌, Bool-cases, inl, inr,
  All, length, Result, ok, err, bind_inverse, Ensures, Ensures-ok,
}
use vehinode.Prelude.Int.{ℤ, pos, negsuc}
use vehinode.Json.{Double}
use vehinode.Prelude.{drop}
use vehinode.Text.{Text, strip, from_hex, split, int_hex, join}
use vehinode.Text.Hex.{from_hex_bytes}
use vehinode.Can.{
  CanFrame, FrameError, adapter_error, value_error, max_can_id, or_value_error, parse_compact,
  parse_payload, parse_words, declared_length, in_bounds, checked_frame, cleaned_line,
  parse_can_frame, Received, heard, is_data, monitor,
}

-- What a frame of classic CAN is.
pub record IsClassic (f : CanFrame) : Type 0 where
  pub identifier : f.can_id ≤ max_can_id
  pub short : length f.payload ≤ 8
  pub bytes : All (λ b. b < 256) f.payload

abbrev IsBytes : Text × List ℕ → Type 0
IsBytes parts = All (λ b. b < 256) parts.1

or_value_error_bytes :
    (s : Text) {bs : List ℕ} → or_value_error (from_hex s) ≡ ok bs → All (λ b. b < 256) bs
or_value_error_bytes s {bs} h = from_hex_bytes s {bs = bs} (ground arith)

parse_payload_bytes :
    (word : Text) (rest : List Text) (declared : Option ℕ) {bs : List ℕ}
    → parse_payload word rest declared ≡ ok bs
    → All (λ b. b < 256) bs
unfolding parse_payload
parse_payload_bytes word rest none {bs} h = or_value_error_bytes (join (word ∷ rest)) {bs = bs} h
parse_payload_bytes word rest (some n) {bs} h =
    let (payload, e, e') = bind_inverse (or_value_error (from_hex (join rest))) _ h in
    let same : payload ≡ bs = ground arith in
    subst (All (λ b. b < 256)) same (or_value_error_bytes (join rest) e)

parse_compact-IsBytes :
    (s : Text) {parts : Text × List ℕ} → parse_compact s ≡ ok parts → IsBytes parts
unfolding parse_compact
parse_compact-IsBytes s {parts} h =
    let found : or_value_error (from_hex (drop 3 s)) ≡ ok parts.1 = ground arith in
    or_value_error_bytes (drop 3 s) found

parse_words-IsBytes :
    (s : Text) (ws : List Text) {parts : Text × List ℕ}
    → parse_words s ws ≡ ok parts
    → IsBytes parts
unfolding parse_words
parse_words-IsBytes s [] {parts} h = parse_compact-IsBytes s h
parse_words-IsBytes s (w ∷ []) {parts} h = parse_compact-IsBytes s h
parse_words-IsBytes s (id ∷ w ∷ ws) {parts} h =
    let (payload, e, e') = bind_inverse (parse_payload w ws (declared_length w)) _ h in
    let same : payload ≡ parts.1 = ground arith in
    subst (All (λ b. b < 256)) same (parse_payload_bytes w ws (declared_length w) e)

in_bounds-le : (value : ℤ) {n : ℕ} → in_bounds value ≡ ok n → n ≤ max_can_id
in_bounds-le (pos m) {n} h = ground arith
in_bounds-le (negsuc m) {n} h = absurd (ground arith)

checked_frame-IsClassic :
    (timestamp : Double) (parts : Text × List ℕ) {f : CanFrame}
    → IsBytes parts
    → checked_frame timestamp parts ≡ ok f
    → IsClassic f
unfolding checked_frame
checked_frame-IsClassic timestamp parts {f} bytes h =
    let (value, e, h₁) = bind_inverse (or_value_error (int_hex parts.0)) _ h in
    let (can_id, e₁, h₂) = bind_inverse (in_bounds value) _ h₁ in
    let le = in_bounds-le value e₁ in
    let short : length parts.1 ≤ 8 = ground arith in
    let same : record { timestamp = timestamp; can_id = can_id; payload = parts.1 } ≡ f =
      ground arith in
    subst IsClassic same (record { identifier = le; short = short; bytes = bytes })

-- A line that is read as a frame gives one of classic CAN: an identifier of 29 bits and at most 8 bytes.
pub parse_can_frame-IsClassic :
    (line : Text) (timestamp : Double) {f : CanFrame}
    → parse_can_frame line timestamp ≡ ok f
    → IsClassic f
unfolding parse_can_frame
parse_can_frame-IsClassic line timestamp {f} h =
    let (parts, e, h₁) =
      bind_inverse (parse_words (cleaned_line line) (split (cleaned_line line))) _ h in
    checked_frame-IsClassic timestamp parts
      (parse_words-IsBytes (cleaned_line line) (split (cleaned_line line)) e) h₁

heard-IsClassic :
    (r : Result FrameError CanFrame) (rest : Result FrameError (List CanFrame))
    → Ensures IsClassic r
    → Ensures (All IsClassic) rest
    → Ensures (All IsClassic) (heard r rest)
unfolding heard
heard-IsClassic (ok f) (ok fs) h k = (h, k)
heard-IsClassic (ok f) (err e) h k = tt
heard-IsClassic (err adapter_error) rest h k = k
heard-IsClassic (err value_error) rest h k = tt

parse-Ensures :
    (r : Result FrameError CanFrame)
    → ((f : CanFrame) → r ≡ ok f → IsClassic f)
    → Ensures IsClassic r
parse-Ensures (ok f) h = h f refl
parse-Ensures (err e) h = tt

monitor-Ensures : (rs : List Received) → Ensures (All IsClassic) (monitor rs)
unfolding monitor
monitor-Ensures [] = tt
monitor-Ensures (r ∷ rs) = elim (Bool-cases (is_data (strip r.line))) [
  | inl listen ↦
      rw (listen, Ensures)
        (heard-IsClassic (parse_can_frame (strip r.line) r.arrived) (monitor rs)
          (parse-Ensures (parse_can_frame (strip r.line) r.arrived)
            (λ f e. parse_can_frame-IsClassic (strip r.line) r.arrived e))
          (monitor-Ensures rs))
  | inr skip ↦ rw (skip, Ensures) (monitor-Ensures rs)
]

-- Every frame that the monitor hands to the decoder is one of classic CAN: its identifier has at most 29
-- bits, and its data is at most eight bytes.
pub monitor-IsClassic :
    (rs : List Received) {fs : List CanFrame} → monitor rs ≡ ok fs → All IsClassic fs
monitor-IsClassic rs {fs} h = Ensures-ok (All IsClassic) (monitor rs) (monitor-Ensures rs) h
