-- ===== src/Common/Text.antt =====
-- Text as lists of character codes, and the C library's reading of hexadecimal numbers
-- (`strtoul` with base 16, used by TestMain.cpp, loader.c and run_simple.c).
use Prim.Native.Nat.{ℕ, ◌+◌, ◌-◌, ◌*◌, ◌%◌, ◌^◌}
use Prim.Native.Char.{code}
use Prim.Native.String.{String}
use mathlib.Core.Path.{◌≡◌}
use mathlib.Core.Bool.{Bool, ◌&&◌, ◌||◌}
use mathlib.Core.List.{List, [], ◌∷◌}
use mathlib.Core.Option.{Option, none, some}
use rsd_mp.Common.Tests.{ltb, leb, ◌==◌, if◌then◌else◌}

abbrev pub Chars : Type 0
Chars = List ℕ

abbrev pub codes : String → Chars
codes String.[] = []
codes (String.◌∷◌ c s) = code c ∷ codes s

-- The value of a hexadecimal digit.
unfoldable pub hex_value? : ℕ → Option ℕ
hex_value? c =
    if leb b'0' c && leb c b'9'
    then some (c - b'0')
    else if leb b'a' c && leb c b'f'
    then some (c - b'a' + 10)
    else if leb b'A' c && leb c b'F'
    then some (c - b'A' + 10)
    else none

-- The digits that are read: `none` at the first character that is no digit ends the number.
unfoldable pub scan_hex : Chars → ℕ → ℕ
scan_hex [] acc = acc
scan_hex (c ∷ cs) acc = elim (hex_value? c) [ none ↦ acc | some d ↦ scan_hex cs (acc * 16 + d) ]

unfoldable pub is_space : ℕ → Bool
is_space c = c == 32 || (leb 9 c && leb c 13)

unfoldable pub skip_space : Chars → Chars
skip_space [] = []
skip_space (c ∷ cs) = let rest = skip_space cs in if is_space c then rest else c ∷ cs

-- The prefix `0x` or `0X` is optional.
unfoldable pub skip_prefix : Chars → Chars
skip_prefix (a ∷ b ∷ cs) = if a == b'0' && (b == b'x' || b == b'X') then cs else a ∷ b ∷ cs
skip_prefix cs = cs

-- Values that do not fit the `w` bits of `unsigned long` become the largest one.
unfoldable pub saturate : ℕ → ℕ → ℕ
saturate w v = if ltb v (2 ^ w) then v else 2 ^ w - 1

signed_hex : ℕ → Chars → ℕ
signed_hex w [] = 0
signed_hex w (c ∷ cs) =
    if c == b'-'
    then (2 ^ w - saturate w (scan_hex (skip_prefix cs) 0)) % 2 ^ w
    else if c == b'+'
    then saturate w (scan_hex (skip_prefix cs) 0)
    else saturate w (scan_hex (skip_prefix (c ∷ cs)) 0)

-- `strtoul(s, …, 16)` where `unsigned long` has `w` bits.
unfoldable pub strtoul16 : ℕ → Chars → ℕ
unfolding signed_hex skip_space skip_prefix saturate is_space scan_hex hex_value?
strtoul16 w s = signed_hex w (skip_space s)

-- A character that `strtoul` takes as a digit.
abbrev pub IsHex : ℕ → Type 0
IsHex c = (d : ℕ) × (hex_value? c ≡ some d)
