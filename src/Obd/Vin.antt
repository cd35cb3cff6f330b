-- ===== src/Obd/Vin.antt =====
-- `parse_vin_response` of agent/vehicle_agent/providers/standard_obd.py on an answer in several frames.
use vehinode.Prelude.{
  ℕ, zero, suc, ◌+◌, ◌/◌, ◌<◌, ◌≤◌, ◌≡◌, refl, ap, ◌∙◌, arith, none, some, List, [], ◌∷◌, ◌++◌, map,
  length, take, leb, if◌then◌else◌, All, All-append,
}
use mathlib.Core.Path.{ap₂}
use vehinode.Text.{Text}
use vehinode.Obd.{behind_pair, frame_data, vin_chunk, vin_payload, printable, parse_vin_response}
use vehinode.Obd.Lines.{line_of, IsHeader, AreBytes, line_payload-line_of}

abbrev pub ArePrintable : List ℕ → Type 0
ArePrintable bs = All (λ b. (32 ≤ b) × (b ≤ 126)) bs

-- A frame that goes on with the answer.
pub record Consecutive : Type 0 where
  pub header : Text
  pub index : ℕ
  pub content : List ℕ

pub record IsConsecutive (f : Consecutive) : Type 0 where
  pub header : IsHeader f.header
  pub index : f.index < 16
  pub content : ArePrintable f.content

abbrev pub consecutive_line : Consecutive → Text
consecutive_line f = line_of f.header ((0x20 + f.index) ∷ f.content)

-- The frame that starts the answer: its length, the marker and the number of the item.
abbrev pub first_line : Text → ℕ → List ℕ → Text
first_line header n content = line_of header (0x10 ∷ n ∷ 0x49 ∷ 0x02 ∷ 0x01 ∷ content)

-- The contents one after the other.
unfoldable pub contents : List Consecutive → List ℕ
contents [] = []
contents (f ∷ fs) = f.content ++ contents fs

AreBytes-printable : (bs : List ℕ) → ArePrintable bs → AreBytes bs
AreBytes-printable [] all = tt
AreBytes-printable (b ∷ bs) all = (omega (arith, all.0.1), AreBytes-printable bs all.1)

behind_pair-printable : (bs : List ℕ) → ArePrintable bs → behind_pair 0x49 0x02 bs ≡ none
unfolding behind_pair
behind_pair-printable [] all = refl
behind_pair-printable (x ∷ []) all = refl
behind_pair-printable (x ∷ y ∷ bs) all =
    let least = all.1.0.0 in let rest = behind_pair-printable (y ∷ bs) all.1 in ground arith

vin_chunk-first : (n : ℕ) (bs : List ℕ) → vin_chunk (some (0x10 ∷ n ∷ 0x49 ∷ 0x02 ∷ 0x01 ∷ bs)) ≡ bs
unfolding vin_chunk frame_data behind_pair
vin_chunk-first n bs = ground arith

vin_chunk-next :
    (k : ℕ) (bs : List ℕ) → k < 16 → ArePrintable bs → vin_chunk (some ((0x20 + k) ∷ bs)) ≡ bs
unfolding vin_chunk frame_data
vin_chunk-next k bs h all =
    let silent = behind_pair-printable bs all in
    let kind : (0x20 + k) / 16 ≡ 2 = omega arith in ground arith

vin_payload-contents :
    (fs : List Consecutive)
    → All IsConsecutive fs
    → vin_payload (map consecutive_line fs) ≡ contents fs
unfolding vin_payload contents
vin_payload-contents [] all = refl
vin_payload-contents (f ∷ fs) all =
    let is = all.0 in
    ap₂ ◌++◌
      (ap vin_chunk (
          line_payload-line_of f.header ((0x20 + f.index) ∷ f.content) is.header
            (omega (arith, is.index), AreBytes-printable f.content is.content))
        ∙ vin_chunk-next f.index f.content is.index is.content)
      (vin_payload-contents fs all.1)

printable-all : (bs : List ℕ) → ArePrintable bs → printable bs ≡ bs
unfolding printable
printable-all [] all = refl
printable-all (b ∷ bs) all =
    let least = all.0.0 in let most = all.0.1 in let rest = printable-all bs all.1 in ground arith

take-all : (n : ℕ) (xs : List ℕ) → length xs ≡ n → take n xs ≡ xs
take-all zero [] h = refl
take-all (suc n) [] h = refl
take-all zero (x ∷ xs) h = absurd (omega arith)
take-all (suc n) (x ∷ xs) h = ap (λ ys. x ∷ ys) (take-all n xs (omega arith))

-- What `parse_vin_response` makes of 17 characters.
cut-whole :
    (xs : List ℕ)
    → length xs ≡ 17
    → (if leb 17 (length xs) then some (take 17 xs) else none) ≡ some xs
cut-whole xs h = let whole = take-all 17 xs h in ground arith

ArePrintable-contents : (fs : List Consecutive) → All IsConsecutive fs → ArePrintable (contents fs)
unfolding contents
ArePrintable-contents [] all = tt
ArePrintable-contents (f ∷ fs) all =
    All-append (λ b. (32 ≤ b) × (b ≤ 126)) f.content (contents fs) all.0.content
      (ArePrintable-contents fs all.1)

-- An answer in a first frame and any consecutive frames, which carry the 17 printable characters of a VIN,
-- gives these characters, wherever the frames divide them.
pub parse_vin_response-frames :
    (header : Text) (n : ℕ) (start : List ℕ) (fs : List Consecutive)
    → IsHeader header
    → n < 256
    → ArePrintable start
    → All IsConsecutive fs
    → length (start ++ contents fs) ≡ 17
    → parse_vin_response (first_line header n start ∷ map consecutive_line fs)
      ≡ some (start ++ contents fs)
unfolding parse_vin_response vin_payload
parse_vin_response-frames header n start fs is small all rest size =
    let vin = start ++ contents fs in
    let payload : vin_payload (first_line header n start ∷ map consecutive_line fs) ≡ vin =
      ap₂ ◌++◌
        (ap vin_chunk (
            line_payload-line_of header (0x10 ∷ n ∷ 0x49 ∷ 0x02 ∷ 0x01 ∷ start) is (
              omega arith,
              (small, (omega arith, (omega arith, (omega arith, AreBytes-printable start all)))),
            ))
          ∙ vin_chunk-first n start)
        (vin_payload-contents fs rest) in
    let kept = printable-all vin (
      All-append (λ b. (32 ≤ b) × (b ≤ 126)) start (contents fs) all
        (ArePrintable-contents fs rest)) in
    ap (λ t. if leb 17 (length t) then some (take 17 t) else none) (ap printable payload ∙ kept)
    ∙ cut-whole vin size
