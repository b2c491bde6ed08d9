-- ===== src/Prelude/Int.antt =====
-- Two's complement: the signed value of a bit pattern.
use Prim.Native.Nat.{ℕ, ◌-◌, ◌^◌}
use mongoproxy.Prelude.Tests.{ltb, if◌then◌else◌}

-- `negsuc n` is -(n + 1).
pub data ℤ : Type 0 where
  pos : ℕ → ℤ
  negsuc : ℕ → ℤ

-- The w-bit pattern `n` read as a signed number.
abbrev pub signed : ℕ → ℕ → ℤ
signed w n = if ltb n (2 ^ (w - 1)) then pos n else negsuc (2 ^ w - n - 1)
