-- ===== src/Common/Int.antt =====
-- Signed numbers over the native ones: the values of C's `int`.
use Prim.Native.Nat.{ℕ, ◌-◌, ◌^◌, ◌≤◌}
use native.Mathlib.Decide.{ℕ_discrete}

-- `negsuc n` is -(n + 1).
pub data ℤ : Type 0 where
  pos : ℕ → ℤ
  negsuc : ℕ → ℤ

abbrev pub int_max : ℕ
int_max = 2 ^ 31 - 1

abbrev pub int_min : ℤ
int_min = negsuc int_max

-- The values that an `int` of 32 bits can have.
abbrev pub IsInt : ℤ → Type 0
IsInt (pos n) = n ≤ int_max
IsInt (negsuc n) = n ≤ int_max

pub ℤ-discrete : Discrete ℤ
ℤ-discrete = hlevel ℕ_discrete
