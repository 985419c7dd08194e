-- ===== src/Prelude/Int.antt =====
-- Integers over the native numbers: `negsuc n` is -(n + 1).
use Prim.Native.Nat.{ℕ, zero, suc}

pub data ℤ : Type 0 where
  pos : ℕ → ℤ
  negsuc : ℕ → ℤ

-- - n
abbrev pub neg : ℕ → ℤ
neg zero = pos 0
neg (suc n) = negsuc n
