-- ===== src/Common/Decimal.antt =====
-- Decimal numerals as the C and the C++ library read them (`atoi` in loader.c, `stoi` in TestMain.cpp).
pub mod Laws
use Prim.Native.Nat.{ℕ, zero, suc, ◌+◌, ◌-◌, ◌*◌}
use mathlib.Core.Bool.{Bool, ◌&&◌}
use mathlib.Core.List.{[], ◌∷◌}
use mathlib.Core.Option.{Option, none, some}
use rsd_mp.Common.Tests.{leb, ◌==◌, if◌then◌else◌}
use rsd_mp.Common.Text.{Chars, skip_space}
use rsd_mp.Common.Int.{ℤ, pos, negsuc, int_max}

unfoldable pub is_digit : ℕ → Bool
is_digit c = leb b'0' c && leb c b'9'

-- The digits that are read; any other character ends the number.
unfoldable pub scan_dec : Chars → ℕ → ℕ
unfolding is_digit
scan_dec [] acc = acc
scan_dec (c ∷ cs) acc =
    let rest = scan_dec cs (acc * 10 + (c - b'0')) in if is_digit c then rest else acc

unfoldable pub minus : ℕ → ℤ
minus zero = pos 0
minus (suc n) = negsuc n

-- `none` if there is no digit.
unfoldable pub unsigned? : Chars → Option ℕ
unfolding is_digit scan_dec
unsigned? [] = none
unsigned? (c ∷ cs) = if is_digit c then some (scan_dec (c ∷ cs) 0) else none

negated : Option ℕ → Option ℤ
negated none = none
negated (some n) = some (minus n)

plain : Option ℕ → Option ℤ
plain none = none
plain (some n) = some (pos n)

unfoldable pub signed? : Chars → Option ℤ
unfolding negated plain minus unsigned?
signed? [] = none
signed? (c ∷ cs) =
    if c == b'-'
    then negated (unsigned? cs)
    else if c == b'+'
    then plain (unsigned? cs)
    else plain (unsigned? (c ∷ cs))

-- The value, if an `int` has it.
unfoldable pub in_int : ℤ → Option ℤ
in_int (pos n) = if leb n int_max then some (pos n) else none
in_int (negsuc n) = if leb n int_max then some (negsuc n) else none

-- `atoi`: 0 without a digit; `none` is a value that `int` does not have, which is undefined.
unfoldable pub atoi : Chars → Option ℤ
unfolding signed? skip_space in_int
atoi s = elim (signed? (skip_space s)) [ none ↦ some (pos 0) | some v ↦ in_int v ]

-- `stoi`: `none` is an exception, `invalid_argument` without a digit and `out_of_range` for a value
-- that `int` does not have.
unfoldable pub stoi : Chars → Option ℤ
unfolding signed? skip_space in_int
stoi s = elim (signed? (skip_space s)) [ none ↦ none | some v ↦ in_int v ]
