-- ===== src/Prelude/Int.antt =====
-- Python's integers, as signed numbers over the native naturals.
use Prim.Native.Nat.{ℕ}

-- `negsuc n` is -(n + 1).
pub data ℤ : Type 0 where
  pos : ℕ → ℤ
  negsuc : ℕ → ℤ
