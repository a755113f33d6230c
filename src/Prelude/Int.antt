-- ===== src/Prelude/Int.antt =====
-- Go's `int` where a negative value can occur: `negsuc n` is -(n + 1).
use Prim.Native.Nat.{ℕ}
use mathlib.Core.Bool.{Bool, true, false}
use lifeline.Prelude.Tests.{ltb, ◌==◌}

pub data ℤ : Type 0 where
  pos : ℕ → ℤ
  negsuc : ℕ → ℤ

-- `k <= 0`, `k > n` and `k == n` for a numeral n.
abbrev pub le_zero : ℤ → Bool
le_zero (pos k) = k == 0
le_zero (negsuc k) = true

abbrev pub gt_nat : ℤ → ℕ → Bool
gt_nat (pos k) n = ltb n k
gt_nat (negsuc k) n = false

abbrev pub eq_nat : ℤ → ℕ → Bool
eq_nat (pos k) n = k == n
eq_nat (negsuc k) n = false
