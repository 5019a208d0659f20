-- ===== src/TestPrograms/Sum.antt =====
-- Sums of values of `int`, as the test programs in Processor/Src/Verification/TestCode/C form them.
use rsd_mp.Common.{
  ℕ, ◌+◌, ◌≤◌, ◌<◌, true, false, Option, none, some, leb, if◌then◌else◌, ◌≡◌, refl, arith,
  Bool-cases, inl, inr, le→leb, le_false, ◌⊎◌,
}
use rsd_mp.Common.Int.{int_max}

-- The sum of two values of `int` that are not negative; an overflow is undefined.
unfoldable pub add_int : ℕ → ℕ → Option ℕ
add_int a b = if leb (a + b) int_max then some (a + b) else none

pub add_int-fits : (a b : ℕ) → a + b ≤ int_max → add_int a b ≡ some (a + b)
unfolding add_int
add_int-fits a b h = rw (le→leb (a + b) int_max h) refl

pub add_int-overflow : (a b : ℕ) → int_max < a + b → add_int a b ≡ none
unfolding add_int
add_int-overflow a b h = rw (le_false (a + b) int_max h) refl

pub le-or-lt : (a b : ℕ) → (a ≤ b) ⊎ (b < a)
le-or-lt a b = elim (Bool-cases (leb a b)) [ inl e ↦ inl (below e) | inr e ↦ inr (above e) ]
  where
    below : leb a b ≡ true → a ≤ b
    below e = ground arith

    above : leb a b ≡ false → b < a
    above e = ground arith
