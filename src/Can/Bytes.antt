-- ===== src/Can/Bytes.antt =====
-- `int.from_bytes` of agent/vehicle_agent/profile_decoder.py, without a sign.
use vehinode.Prelude.{ℕ, ◌+◌, ◌*◌, List, [], ◌∷◌}

-- The bytes behind a value that has been read.
unfoldable pub big_endian : ℕ → List ℕ → ℕ
big_endian value [] = value
big_endian value (b ∷ bs) = big_endian (value * 256 + b) bs

unfoldable pub little_endian : List ℕ → ℕ
little_endian [] = 0
little_endian (b ∷ bs) = b + 256 * little_endian bs
