-- ===== src/Base/Int.antt =====
-- Go's int as a signed number, under the library's names over the native ℕ.
use Prim.Native.Nat.{ℕ}
use mathlib.Core.Bool.{Bool, true, false}
use groovy_agent.Base.Tests.{ltb}

-- `negsuc n` is -(n + 1).
pub data ℤ : Type 0 where
  pos : ℕ → ℤ
  negsuc : ℕ → ℤ

-- `x > limit` and `x < limit` for a limit that is not negative.
abbrev pub gtb_ℤ : ℤ → ℕ → Bool
gtb_ℤ (pos n) limit = ltb limit n
gtb_ℤ (negsuc n) limit = false

abbrev pub ltb_ℤ : ℤ → ℕ → Bool
ltb_ℤ (pos n) limit = ltb n limit
ltb_ℤ (negsuc n) limit = true
