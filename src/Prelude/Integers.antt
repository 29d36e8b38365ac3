-- ===== src/Prelude/Integers.antt =====
-- Whole numbers over the native ones.
use Prim.Native.Nat.{ℕ}

-- `pos n` is n, and `negsuc n` is -(n + 1).
pub data ℤ : Type 0 where
  pos negsuc : ℕ → ℤ
