-- ===== src/Prelude/Int.antt =====
-- Signed numbers, of which the program only shows and stores values. `negsuc n` is -(n + 1).
use Prim.Native.Nat.{ℕ}

pub data ℤ : Type 0 where
  pos : ℕ → ℤ
  negsuc : ℕ → ℤ
