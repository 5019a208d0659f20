-- ===== src/Examples/Printing.antt =====
-- The theorems on the library of the test programs at concrete inputs.
use rsd_mp.Common.{ℕ, ◌+◌, ◌%◌, ◌<◌, ◌≤◌, none, some, ◌≡◌, ◌≢◌, ◌↔◌, ap, arith, length, ◌⊎◌, inl}
use rsd_mp.Common.Text.{Chars, strtoul16}
use rsd_mp.Common.Int.{ℤ, pos, negsuc, int_min}
use rsd_mp.Common.Memory.{Memory}
use rsd_mp.Serial.{serial_out_dec, serial_out_hex, digit_hex, memcpy}
use rsd_mp.Serial.Dec.{read_dec, read_dec-serial_out_dec, serial_out_dec-none_iff}
use rsd_mp.Serial.Hex.{strtoul16-serial_out_hex}
use rsd_mp.Serial.Copy.{memcpy_lem}
use rsd_mp.RunSimple.Polling.{}
use rsd_mp.VerilatorHelper.Stage.{}
use rsd_mp.TestBench.Registers.Laws.{}

abbrev addresses : Memory
addresses a = a % 256

abbrev magnitude : ℤ → ℕ
magnitude (pos n) = n
magnitude (negsuc n) = n

distinct : negsuc 1233 ≢ int_min
distinct e = omega (arith, ap magnitude e)

read_dec-serial_out_dec_example :
    (out : Chars) × (serial_out_dec (negsuc 1233) ≡ some out)
    × (read_dec out ≡ negsuc 1233)
    × (length out ≤ 11)
read_dec-serial_out_dec_example = read_dec-serial_out_dec (negsuc 1233) (omega arith) distinct

strtoul16-serial_out_hex_example :
    (strtoul16 32 (serial_out_hex 0xdeadbeef) ≡ 0xdeadbeef)
    × (length (serial_out_hex 0xdeadbeef) ≡ digit_hex)
strtoul16-serial_out_hex_example = strtoul16-serial_out_hex 0xdeadbeef (omega arith)

serial_out_dec-none_iff_example : (serial_out_dec int_min ≡ none) ↔ (int_min ≡ int_min)
serial_out_dec-none_iff_example = serial_out_dec-none_iff int_min (omega arith)

memcpy_lem_example :
    ((k : ℕ) → k < 8 → memcpy 16 20 8 addresses (16 + k) ≡ (20 + k) % 256)
    × ((a : ℕ) → (a < 16) ⊎ (24 ≤ a) → memcpy 16 20 8 addresses a ≡ a % 256)
memcpy_lem_example = memcpy_lem 16 20 8 addresses (inl (omega arith))
