-- ===== src/Serial.antt =====
-- Processor/Src/Verification/TestCode/C/lib.c: the serial output that the test programs share.
-- A store to SERIAL_ADDRESS sends one character, so an output routine is modelled by the list of
-- the characters that it stores, in order. `serial_wait` only spends time. The array `c` of a
-- routine is a list whose head is the entry written last; this is the order in which the last
-- loop of the routine, from `cnt - 1` down to 0, stores the entries.
pub mod Hex
pub mod Dec
pub mod Copy
use rsd_mp.Common.{ℕ, zero, suc, ◌+◌, ◌-◌, ◌*◌, ◌/◌, ◌%◌, ◌^◌, List, [], ◌∷◌, Option, none, some}
use rsd_mp.Common.{ltb, ◌==◌, if◌then◌else◌, length, ◌>>=◌}
use rsd_mp.Common.{◌≡◌, refl}
use rsd_mp.Common.Text.{Chars, codes}
use rsd_mp.Common.Memory.{Memory, copy_loop}
use rsd_mp.Common.Int.{ℤ, pos, negsuc, int_max}

-- The sizes of the two arrays.
abbrev pub digit_dec : ℕ
digit_dec = 256

abbrev pub digit_hex : ℕ
digit_hex = 8

-- The areas are given by their addresses in one memory.
pub memcpy : ℕ → ℕ → ℕ → Memory → Memory
unfolding copy_loop
memcpy dest src n mem = copy_loop n 0 dest src mem

-- `val *= -1`, which overflows at the least `int` only.
pub negate : ℤ → Option ℤ
negate (pos zero) = some (pos 0)
negate (pos (suc n)) = some (negsuc n)
negate (negsuc n) = if n == int_max then none else some (pos (suc n))

-- The `do` loop with `room` free entries left in `c`; a write behind the last entry is `none`.
pub dec_loop : ℕ → ℕ → Chars → Option Chars
dec_loop zero val c = none
dec_loop (suc room) val c =
    let c' : Chars = (val % 10 + b'0') ∷ c in
    let rest = dec_loop room (val / 10) c' in if val / 10 == 0 then some c' else rest

-- The sign is the entry after the digits.
pub put_minus : Chars → Option Chars
put_minus c = if ltb (length c) digit_dec then some (b'-' ∷ c) else none

-- `none` is undefined behaviour: an overflow of `int`, or a write behind the end of `c`.
pub serial_out_dec : ℤ → Option Chars
unfolding dec_loop put_minus negate
serial_out_dec (pos n) = dec_loop digit_dec n []
serial_out_dec (negsuc n) = do
  val ← negate (negsuc n)
  elim val [ pos m ↦ dec_loop digit_dec m [] >>= put_minus | negsuc _ ↦ none ]

-- The character for `val & 0xf`.
unfoldable pub hex_char : ℕ → ℕ
hex_char d =
    if d == 0
    then b'0'
    else if d == 1
    then b'1'
    else if d == 2
    then b'2'
    else if d == 3
    then b'3'
    else if d == 4
    then b'4'
    else if d == 5
    then b'5'
    else if d == 6
    then b'6'
    else if d == 7
    then b'7'
    else if d == 8
    then b'8'
    else if d == 9
    then b'9'
    else if d == 10
    then b'a'
    else if d == 11
    then b'b'
    else if d == 12
    then b'c'
    else if d == 13
    then b'd'
    else if d == 14
    then b'e'
    else b'f'

-- `val >> 4` of an `int`, given by its bit pattern: the sign bit is repeated.
unfoldable pub shift_nibble : ℕ → ℕ
shift_nibble val = if ltb val (2 ^ 31) then val / 2 ^ 4 else val / 2 ^ 4 + 15 * 2 ^ 28

-- The `while` loop with `digit_hex - cnt` rounds left.
unfoldable pub hex_loop : ℕ → ℕ → Chars → Chars
hex_loop zero val c = c
hex_loop (suc left) val c = hex_loop left (shift_nibble val) (hex_char (val % 16) ∷ c)

-- The argument is the bit pattern of `val`.
unfoldable pub serial_out_hex : ℕ → Chars
unfolding hex_loop hex_char shift_nibble
serial_out_hex val = hex_loop digit_hex val []

unfoldable pub serial_out_char : ℕ → Chars
serial_out_char val = val ∷ []

hex_runs : serial_out_hex 0xdeadbeef ≡ codes "deadbeef"
unfolding serial_out_hex
hex_runs = refl

dec_runs : serial_out_dec (negsuc 1233) ≡ some (codes "-1234")
unfolding serial_out_dec
dec_runs = refl
