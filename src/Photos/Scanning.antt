-- ===== src/Photos/Scanning.antt =====
-- The loop of `_jpeg_dimensions` ends.
use vehinode.Prelude.{
  ℕ, zero, suc, ◌<◌, ◌≤◌, ◌≡◌, refl, sym, ap, ◌∙◌, arith, ◌⊎◌, inl, inr, Bool, true, Option, List,
  [], ◌∷◌, length, take, drop,
}
use vehinode.Can.Bytes.{big_endian}
use vehinode.Photos.Jpeg.{
  Dimensions, Round, stop, go, is_frame, skip_fill, read_segment, read_marker, jpeg_round, ended,
  jpeg_scan, answer_of, starts_jpeg, jpeg_dimensions,
}

length-drop : {A : Type 0} (n : ℕ) (xs : List A) → length (drop n xs) ≤ length xs
length-drop zero xs = omega arith
length-drop (suc n) [] = omega arith
length-drop (suc n) (x ∷ xs) = omega (arith, length-drop n xs)

length-skip_fill : (bs : List ℕ) → length (skip_fill bs) ≤ length bs
unfolding skip_fill
length-skip_fill [] = omega arith
length-skip_fill (b ∷ bs) = ground (arith, length-skip_fill bs)

read_segment-shorter :
    (frame : Bool) (rest : List ℕ) {later : List ℕ}
    → read_segment frame rest ≡ go later
    → length later ≤ length rest
unfolding read_segment
read_segment-shorter frame rest {later} h =
    ground (arith, length-drop (big_endian 0 (take 2 rest)) rest)

read_marker-shorter :
    (bs : List ℕ) {later : List ℕ} → read_marker bs ≡ go later → length later ≤ length bs
unfolding read_marker
read_marker-shorter [] {later} h = absurd (ground arith)
read_marker-shorter (b ∷ bs) {later} h =
    ground (arith, read_segment-shorter (is_frame b) bs {later = later})

jpeg_round-shorter :
    (rest : List ℕ) {later : List ℕ} → jpeg_round rest ≡ go later → length later < length rest
unfolding jpeg_round
jpeg_round-shorter [] {later} h = absurd (ground arith)
jpeg_round-shorter (b ∷ bs) {later} h =
    ground (arith, read_marker-shorter (skip_fill bs) {later = later}, length-skip_fill bs)

Round-cases :
    (r : Round)
    → ((answer : Option Dimensions) × (r ≡ stop answer)) ⊎ ((later : List ℕ) × (r ≡ go later))
Round-cases (stop answer) = inl (answer, refl)
Round-cases (go later) = inr (later, refl)

module _ (rest : List ℕ) where
  pub jpeg_scan-stop :
      (fuel : ℕ) {answer : Option Dimensions}
      → jpeg_round rest ≡ stop answer
      → jpeg_scan (suc fuel) rest ≡ ended answer
  unfolding jpeg_scan
  jpeg_scan-stop fuel {answer} h = ground arith

  pub jpeg_scan-go :
      (fuel : ℕ) {later : List ℕ}
      → jpeg_round rest ≡ go later
      → jpeg_scan (suc fuel) rest ≡ jpeg_scan fuel later
  unfolding jpeg_scan
  jpeg_scan-go fuel {later} h = ground arith

jpeg_scan-agree :
    (f g : ℕ) (rest : List ℕ)
    → length rest < f
    → length rest < g
    → (jpeg_scan f rest ≡ jpeg_scan g rest)
      × (jpeg_scan f rest ≡ ended (answer_of (jpeg_scan f rest)))
jpeg_scan-agree zero g rest hf hg = absurd (omega arith)
jpeg_scan-agree (suc f) zero rest hf hg = absurd (omega arith)
jpeg_scan-agree (suc f) (suc g) rest hf hg = elim (Round-cases (jpeg_round rest)) [
  | inl (answer, e) ↦
      let first = jpeg_scan-stop rest f e in let second = jpeg_scan-stop rest g e in ground arith
  | inr (later, e) ↦
      let first = jpeg_scan-go rest f e in
      let second = jpeg_scan-go rest g e in
      let shorter = jpeg_round-shorter rest e in
      let both = jpeg_scan-agree f g later (omega arith) (omega arith) in ground arith
]

-- The loop of `_jpeg_dimensions` ends, whatever the file holds: from any number of rounds above the number
-- of bytes on, the scan of a file that starts like a JPEG gives an answer, always the one that the function
-- returns.
pub jpeg_scan_ends :
    (content : List ℕ) (fuel : ℕ)
    → starts_jpeg content ≡ true
    → length content < fuel
    → jpeg_scan fuel (drop 2 content) ≡ ended (jpeg_dimensions content)
unfolding jpeg_dimensions
jpeg_scan_ends content fuel starts enough =
    let shorter = length-drop 2 content in
    let both =
      jpeg_scan-agree (suc (length content)) fuel (drop 2 content) (omega arith) (omega arith) in
    let same : jpeg_dimensions content
        ≡ answer_of (jpeg_scan (suc (length content)) (drop 2 content)) =
      ground arith in
    sym both.0 ∙ both.1 ∙ ap ended (sym same)
