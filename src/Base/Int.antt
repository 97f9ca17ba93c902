-- ===== src/Base/Int.antt =====
-- The signed numbers that the C code stores: a socket descriptor is an `int`, and -1 marks none.
use Prim.Native.Nat.{ℕ}

-- `negsuc n` is -(n + 1).
pub data ℤ : Type 0 where
  pos : ℕ → ℤ
  negsuc : ℕ → ℤ
