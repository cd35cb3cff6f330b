-- ===== src/Models/Types.antt =====
-- Identifiers and points in time, as every table uses them.
use vehinode.Prelude.{ℕ, ◌*◌}

abbrev pub Key : Type 0
Key = ℕ

abbrev pub Instant : Type 0
Instant = ℕ

-- `timedelta(seconds=n)`
abbrev pub seconds : ℕ → ℕ
seconds n = n * 1_000_000
