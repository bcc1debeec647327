-- ===== src/Base/Ints.antt =====
-- The integers over the native ℕ.
use Prim.Native.Nat.{ℕ}

pub data ℤ : Type 0 where
  pos : ℕ → ℤ
  negsuc : ℕ → ℤ
