-- ===== src/Base/Signed.antt =====
-- Signed 64-bit integers as bit patterns.
use Prim.Native.Nat.{ℕ, ◌+◌, ◌-◌, ◌%◌, ◌^◌}
use mathlib.Core.Bool.{Bool}
use gki_pass.Base.Tests.{leb}

-- `a <= b` of signed 64-bit integers.
abbrev pub le_64 : ℕ → ℕ → Bool
le_64 a b = leb ((a + 2 ^ 63) % 2 ^ 64) ((b + 2 ^ 63) % 2 ^ 64)

abbrev pub sub_64 : ℕ → ℕ → ℕ
sub_64 a b = (a + 2 ^ 64 - b) % 2 ^ 64
