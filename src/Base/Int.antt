-- ===== src/Base/Int.antt =====
-- Python's integers where a negative one can arrive. `negsuc n` is -(n + 1).
use Prim.Native.Nat.{ℕ, zero, suc}
use mathlib.Core.Bool.{Bool, true, false}
use mathlib.Core.Option.{Option, none, some}

pub data ℤ : Type 0 where
  pos : ℕ → ℤ
  negsuc : ℕ → ℤ

-- The number, if it is not negative.
abbrev pub to_nat : ℤ → Option ℕ
to_nat (pos n) = some n
to_nat (negsuc n) = none

-- `0 < value`.
abbrev pub is_positive : ℤ → Bool
is_positive (pos zero) = false
is_positive (pos (suc n)) = true
is_positive (negsuc n) = false
