-- ===== src/Prelude/Int.antt =====
-- Signed C integers, as far as the callbacks return them: `negsuc n` is -(n + 1).
use Prim.Native.Nat.{ℕ}

pub data ℤ : Type 0 where
  pos : ℕ → ℤ
  negsuc : ℕ → ℤ
