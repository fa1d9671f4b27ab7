-- ===== src/Base/Int.antt =====
-- Integers: `negsuc n` is -(n + 1). The error codes are negative.
use Prim.Native.Nat.{ℕ}

pub data ℤ : Type 0 where
  pos : ℕ → ℤ
  negsuc : ℕ → ℤ
