-- ===== src/Serial/Hex.antt =====
-- `serial_out_hex` prints the eight hexadecimal digits of the bit pattern.
use rsd_mp.Common.{ℕ, zero, suc, ◌+◌, ◌*◌, ◌/◌, ◌%◌, ◌^◌, ◌<◌, ◌≡◌, refl, [], ◌∷◌, arith, some}
use rsd_mp.Common.{length, ◌∙◌, ap, All}
use rsd_mp.Common.Text.{Chars, scan_hex, hex_value?, strtoul16, saturate, IsHex}
use rsd_mp.Common.Strtoul.{scan_hex-some, strtoul16_digits, saturate_fits}
use rsd_mp.Serial.{hex_char, shift_nibble, hex_loop, serial_out_hex, digit_hex}

pub hex_value?-hex_char : (d : ℕ) → d < 16 → hex_value? (hex_char d) ≡ some d
unfolding hex_value? hex_char
hex_value?-hex_char d h = ground arith

-- The number that the lowest `n` nibbles spell.
nibbles : ℕ → ℕ → ℕ
nibbles zero val = 0
nibbles (suc n) val = nibbles n (shift_nibble val) * 16 + val % 16

scan_hex_step :
    (c : Chars) (d acc : ℕ) → d < 16 → scan_hex (hex_char d ∷ c) acc ≡ scan_hex c (acc * 16 + d)
scan_hex_step c d acc h = scan_hex-some (hex_char d) d c acc (hex_value?-hex_char d h)

scan_hex-hex_loop :
    (n val : ℕ) (c : Chars) → scan_hex (hex_loop n val c) 0 ≡ scan_hex c (nibbles n val)
unfolding hex_loop nibbles
scan_hex-hex_loop zero val c = refl
scan_hex-hex_loop (suc n) val c =
    scan_hex-hex_loop n (shift_nibble val) (hex_char (val % 16) ∷ c)
    ∙ scan_hex_step c (val % 16) (nibbles n (shift_nibble val)) (omega arith)

pub shift_nibble-mod :
    (val : ℕ) → val < 2 ^ 32 → (shift_nibble val % 2 ^ 28 ≡ val / 16) × (shift_nibble val < 2 ^ 32)
unfolding shift_nibble
shift_nibble-mod val h = ground arith

nibbles_eight : (val : ℕ) → val < 2 ^ 32 → nibbles 8 val ≡ val
unfolding nibbles
nibbles_eight val h =
    let s1 = shift_nibble val in
    let s2 = shift_nibble s1 in
    let s3 = shift_nibble s2 in
    let s4 = shift_nibble s3 in
    let s5 = shift_nibble s4 in
    let s6 = shift_nibble s5 in
    let h1 = shift_nibble-mod val h in
    let h2 = shift_nibble-mod s1 (h1.1) in
    let h3 = shift_nibble-mod s2 (h2.1) in
    let h4 = shift_nibble-mod s3 (h3.1) in
    let h5 = shift_nibble-mod s4 (h4.1) in
    let h6 = shift_nibble-mod s5 (h5.1) in
    let h7 = shift_nibble-mod s6 (h6.1) in omega (arith, h1, h2, h3, h4, h5, h6, h7)

pub nibble-IsHex : (val : ℕ) → IsHex (hex_char (val % 16))
nibble-IsHex val = (val % 16, hex_value?-hex_char (val % 16) (omega arith))

scan_hex-serial_out_hex : (val : ℕ) → val < 2 ^ 32 → scan_hex (serial_out_hex val) 0 ≡ val
unfolding serial_out_hex
scan_hex-serial_out_hex val h = scan_hex-hex_loop 8 val [] ∙ unfold scan_hex in nibbles_eight val h

hex_loop-IsHex : (n val : ℕ) (c : Chars) → All IsHex c → All IsHex (hex_loop n val c)
unfolding hex_loop
hex_loop-IsHex zero val c h = h
hex_loop-IsHex (suc n) val c h = hex_loop-IsHex n (shift_nibble val) _ (nibble-IsHex val, h)

pub serial_out_hex-IsHex : (val : ℕ) → All IsHex (serial_out_hex val)
unfolding serial_out_hex
serial_out_hex-IsHex val = hex_loop-IsHex 8 val [] tt

pub length-serial_out_hex : (val : ℕ) → length (serial_out_hex val) ≡ digit_hex
unfolding serial_out_hex hex_loop
length-serial_out_hex val = refl

-- What `serial_out_hex` prints is eight characters, and `strtoul` with base 16 reads them back as
-- the bit pattern that was printed, for every bit pattern of 32 bits.
pub strtoul16-serial_out_hex :
    (val : ℕ)
    → val < 2 ^ 32
    → (strtoul16 32 (serial_out_hex val) ≡ val) × (length (serial_out_hex val) ≡ digit_hex)
strtoul16-serial_out_hex val h = (
  strtoul16_digits 32 (serial_out_hex val) (serial_out_hex-IsHex val)
        (omega (arith, length-serial_out_hex val))
      ∙ ap (saturate 32) (scan_hex-serial_out_hex val h)
      ∙ saturate_fits 32 val h,
  length-serial_out_hex val,
)
