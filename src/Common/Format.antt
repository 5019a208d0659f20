-- ===== src/Common/Format.antt =====
-- The conversions of C's `printf` that the sources use, on values of 32 bits.
use Prim.Native.Nat.{ℕ, zero, suc, ◌+◌, ◌-◌, ◌/◌, ◌%◌, ◌^◌}
use mathlib.Core.Bool.{Bool, true, false}
use mathlib.Core.Path.{◌≡◌, refl}
use mathlib.Core.List.{[], ◌∷◌, ◌++◌}
use rsd_mp.Common.Tests.{ltb, ◌==◌, if◌then◌else◌}
use rsd_mp.Common.Lists.{length, replicate}
use rsd_mp.Common.Text.{Chars, codes}

unfoldable pub digit_char : ℕ → ℕ
digit_char d = if ltb d 10 then b'0' + d else b'a' + (d - 10)

-- The digits of `n` in front of `out`; a number takes fewer rounds than its value and one.
unfoldable pub digits_loop : ℕ → ℕ → ℕ → Chars → Chars
digits_loop base zero n out = out
digits_loop base (suc fuel) n out =
    let out' : Chars = digit_char (n % base) ∷ out in
    let rest = digits_loop base fuel (n / base) out' in if n / base == 0 then out' else rest

-- `%u` and `%x`.
unfoldable pub unsigned : ℕ → Chars
unfolding digits_loop digit_char
unsigned n = digits_loop 10 (suc n) n []

unfoldable pub hex : ℕ → Chars
unfolding digits_loop digit_char
hex n = digits_loop 16 (suc n) n []

-- `%d` and `%0d` of a bit pattern of 32 bits.
unfoldable pub dec : ℕ → Chars
unfolding unsigned
dec v = if ltb v (2 ^ 31) then unsigned v else b'-' ∷ unsigned (2 ^ 32 - v)

unfoldable pub pad : ℕ → ℕ → Chars → Chars
pad fill width s = replicate (width - length s) fill ++ s

-- `%08x`.
unfoldable pub hex8 : ℕ → Chars
unfolding pad hex replicate
hex8 v = pad b'0' 8 (hex v)

-- `%11d` of a value that is not negative.
unfoldable pub dec11 : ℕ → Chars
unfolding pad unsigned replicate
dec11 v = pad b' ' 11 (unsigned v)

unfoldable pub bit : Bool → Chars
bit true = b'1' ∷ []
bit false = b'0' ∷ []

formats : hex8 0x1a2b ++ dec 4294967295 ++ dec11 1 ≡ codes "00001a2b-1          1"
unfolding hex8 dec dec11
formats = refl
