-- ===== src/Can/Decoding.antt =====
-- Integers that are read from the data of a frame.
use vehinode.Prelude.{
  ℕ, zero, suc, ◌+◌, ◌-◌, ◌*◌, ◌^◌, ◌<◌, ◌≤◌, ◌≡◌, ◌≢◌, ◌↔◌, refl, sym, ap, ◌∙◌, subst, arith, Bool,
  true, false, ◌&&◌, none, List, [], ◌∷◌, reverse, leb, Bool-cases, inl, inr, if◌then◌else◌, All,
  All-append, length, length-append, take, drop, ok,
}
use native.Mathlib.Numerals.{towards_suc}
use mathlib.Core.List.{reverse-cons}
use vehinode.Prelude.Int.{ℤ, pos, negsuc}
use vehinode.Can.Bytes.{big_endian}
use vehinode.Can.Decoder.{
  Endianness, big, little, boolean, DecoderRules, integer_type, from_bytes, number, chunk_of,
  raw_integer, raw_value,
}

abbrev AreBytes : List ℕ → Type 0
AreBytes bs = All (λ b. b < 256) bs

pow_eight : (k : ℕ) → 2 ^ (k + 8) ≡ 256 * 2 ^ k
pow_eight k = simp towards_suc (omega arith)

pow_byte : (n : ℕ) → 2 ^ (8 * suc n) ≡ 256 * 2 ^ (8 * n)
pow_byte n =
    let e : 8 * suc n ≡ 8 * n + 8 = omega arith in ap (λ (k : ℕ). 2 ^ k) e ∙ pow_eight (8 * n)

times_mono : (a c p : ℕ) → a ≤ c → a * p ≤ c * p
times_mono a c p h = grind arith

widen : (a v p : ℕ) → a ≤ (v + 1) * 256 → a * p ≤ (v + 1) * (256 * p)
widen a v p h = let m = times_mono a ((v + 1) * 256) p h in grind arith

big_endian-lt :
    (v : ℕ) (bs : List ℕ) → AreBytes bs → big_endian v bs < (v + 1) * 2 ^ (8 * length bs)
unfolding big_endian
big_endian-lt v [] h = omega arith
big_endian-lt v (b ∷ bs) h =
    let ih = big_endian-lt (v * 256 + b) bs h.1 in
    let byte = widen (v * 256 + b + 1) v (2 ^ (8 * length bs)) (omega arith) in
    rw (pow_byte (length bs)) (omega arith)

AreBytes-take : (n : ℕ) (bs : List ℕ) → AreBytes bs → AreBytes (take n bs)
AreBytes-take zero bs h = tt
AreBytes-take (suc n) [] h = tt
AreBytes-take (suc n) (b ∷ bs) h = (h.0, AreBytes-take n bs h.1)

AreBytes-drop : (n : ℕ) (bs : List ℕ) → AreBytes bs → AreBytes (drop n bs)
AreBytes-drop zero bs h = h
AreBytes-drop (suc n) [] h = h
AreBytes-drop (suc n) (b ∷ bs) h = AreBytes-drop n bs h.1

length-drop : (n : ℕ) (bs : List ℕ) → length (drop n bs) ≡ length bs - n
length-drop zero bs = omega arith
length-drop (suc n) [] = omega arith
length-drop (suc n) (b ∷ bs) = omega (arith, length-drop n bs)

length-take_iff : (n : ℕ) (bs : List ℕ) → (length (take n bs) ≡ n) ↔ (n ≤ length bs)
length-take_iff zero bs = (λ _. omega arith, λ _. refl)
length-take_iff (suc n) [] = (λ e. absurd (omega arith), λ e. absurd (omega arith))
length-take_iff (suc n) (b ∷ bs) =
    let ih = length-take_iff n bs in
    (
      λ e. let le = ih.0 (omega arith) in omega arith,
      λ e. let eq = ih.1 (omega arith) in omega arith,
    )

AreBytes-reverse : (bs : List ℕ) → AreBytes bs → AreBytes (reverse bs)
AreBytes-reverse [] h = tt
AreBytes-reverse (b ∷ bs) h =
    subst AreBytes (sym (reverse-cons b bs))
      (All-append (λ c. c < 256) (reverse bs) (b ∷ []) (AreBytes-reverse bs h.1) (h.0, tt))

length-reverse : (bs : List ℕ) → length (reverse bs) ≡ length bs
length-reverse [] = refl
length-reverse (b ∷ bs) =
    ap length (reverse-cons b bs)
    ∙ omega (arith, length-append (reverse bs) (b ∷ []), length-reverse bs)

-- A value that n bytes can hold, with a sign or without.
abbrev pub InRange : Bool → ℕ → ℤ → Type 0
InRange signed n (pos v) = (if signed then 2 * v else v) < 2 ^ (8 * n)
InRange signed n (negsuc v) = (signed ≡ true) × (2 * v < 2 ^ (8 * n))

in_order-lt :
    (endianness : Endianness) (bs : List ℕ)
    → AreBytes bs
    → big_endian 0 (elim endianness [ big ↦ bs | little ↦ reverse bs ]) < 2 ^ (8 * length bs)
in_order-lt big bs h = let lt = big_endian-lt 0 bs h in omega arith
in_order-lt little bs h =
    let lt = big_endian-lt 0 (reverse bs) (AreBytes-reverse bs h) in
    subst (λ (n : ℕ). big_endian 0 (reverse bs) < 2 ^ (8 * n)) (length-reverse bs) (omega arith)

twos_complement :
    (signed : Bool) (n value : ℕ)
    → value < 2 ^ (8 * n)
    → InRange signed n (
        if signed && leb (2 ^ (8 * n)) (2 * value)
        then negsuc (2 ^ (8 * n) - value - 1)
        else pos value)
twos_complement false n value h = h
twos_complement true n value h = elim (Bool-cases (leb (2 ^ (8 * n)) (2 * value))) [
  | inl high ↦ rw (high, InRange) (refl, ground arith)
  | inr low ↦ rw (low, InRange) (ground arith)
]

from_bytes-InRange :
    (endianness : Endianness) (signed : Bool) (bs : List ℕ)
    → AreBytes bs
    → InRange signed (length bs) (from_bytes endianness signed bs)
unfolding from_bytes
from_bytes-InRange endianness signed bs h =
    twos_complement signed (length bs) _ (in_order-lt endianness bs h)

module _ (payload : List ℕ) (d : DecoderRules) (bytes : AreBytes payload) where
  raw_value-raw_integer : d.data_type ≢ boolean → raw_value payload d ≡ raw_integer payload d
  unfolding raw_value
  raw_value-raw_integer integer = ground arith

  chunk-AreBytes : AreBytes (chunk_of payload d)
  unfolding chunk_of
  chunk-AreBytes =
      AreBytes-take (integer_type d).0 (drop d.byte_offset payload)
        (AreBytes-drop d.byte_offset payload bytes)

  chunk_whole :
      0 < (integer_type d).0
      → (length (chunk_of payload d) ≡ (integer_type d).0)
        ↔ (d.byte_offset + (integer_type d).0 ≤ length payload)
  unfolding chunk_of
  chunk_whole some_bytes =
      let whole = length-take_iff (integer_type d).0 (drop d.byte_offset payload) in
      let left = length-drop d.byte_offset payload in
      (λ e. let le = whole.0 e in omega arith, λ le. whole.1 (omega arith))

  -- With a decoder of an integer type of one byte or more, not a boolean, that has neither a mask nor
  -- a shift: the data of a frame gives an integer, one that this number of bytes can hold, with a
  -- sign or without, exactly when it holds all of these bytes.
  pub raw_value_lem :
      d.data_type ≢ boolean
      → 0 < (integer_type d).0
      → d.bit_mask ≡ none
      → d.shift ≡ none
      → ((v : ℤ) × (raw_value payload d ≡ ok (number v))
          × InRange (integer_type d).1 (integer_type d).0 v)
        ↔ (d.byte_offset + (integer_type d).0 ≤ length payload)
  unfolding raw_integer
  raw_value_lem integer some_bytes unmasked unshifted =
      let whole = chunk_whole some_bytes in
      let same = raw_value-raw_integer integer in
      (
        λ (v, e, r). whole.0 (ground arith),
        λ le.
            let full = whole.1 le in
            (
              from_bytes d.endianness (integer_type d).1 (chunk_of payload d),
              ground arith,
              subst
                  (λ (n : ℕ).
                    InRange (integer_type d).1 n
                      (from_bytes d.endianness (integer_type d).1 (chunk_of payload d)))
                  full
                  (from_bytes-InRange d.endianness (integer_type d).1 (chunk_of payload d)
                    chunk-AreBytes),
            ),
      )
