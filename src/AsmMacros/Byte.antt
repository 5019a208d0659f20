-- ===== src/AsmMacros/Byte.antt =====
-- rsd-asm-macros.h: what RSD_IO_WRITE_BYTE prints.
use rsd_mp.Common.{
  ℕ, ◌+◌, ◌/◌, ◌%◌, ◌^◌, ◌<◌, ◌≤◌, [], ◌∷◌, ◌++◌, ◌≡◌, refl, ap, ap₂, ◌∙◌, arith, append_assoc,
}
use rsd_mp.Common.Text.{Chars}
use rsd_mp.Common.Memory.{Memory}
use rsd_mp.Serial.{hex_char}
use rsd_mp.AsmMacros.{State, run, rsd_io_write_byte, a1}

-- The string "0123456789abcdef" stands at the address, below the end of the address space.
abbrev pub IsTable : Memory → ℕ → Type 0
IsTable mem table = (table + 16 ≤ 2 ^ 32) × ((d : ℕ) → d < 16 → mem (table + d) ≡ hex_char d)

-- The two digits of the lowest byte of a number.
abbrev pub digits : ℕ → Chars
digits v = hex_char (v / 16 % 16) ∷ hex_char (v % 16) ∷ []

hex_char-byte : (d : ℕ) → hex_char d % 2 ^ 8 ≡ hex_char d
unfolding hex_char
hex_char-byte d = ground arith

table_read :
    (mem : Memory) (table d : ℕ)
    → IsTable mem table
    → d < 16
    → mem ((d + table) % 2 ^ 32) % 2 ^ 8 ≡ hex_char d
table_read mem table d (fits, h) lt =
    let e : (d + table) % 2 ^ 32 ≡ table + d = omega arith in
    ap (λ (t : ℕ). mem t % 2 ^ 8) e ∙ ap (λ (c : ℕ). c % 2 ^ 8) (h d lt) ∙ hex_char-byte d

-- What the macro leaves.
pub record IsPrinted (s : State) (v : ℕ) (s' : State) : Type 0 where
  pub out : s'.out ≡ s.out ++ digits v
  pub mem : s'.mem ≡ s.mem
  pub copy : s'.regs a1 ≡ s.regs a1

pub rsd_io_write_byte-IsPrinted :
    (s : State) (table r : ℕ)
    → IsTable s.mem table
    → IsPrinted s (s.regs r) (run (rsd_io_write_byte table r) s)
unfolding run rsd_io_write_byte
rsd_io_write_byte-IsPrinted s table r h =
    let v : ℕ = s.regs r in
    record {
      out =
          append_assoc s.out (_ ∷ []) (_ ∷ [])
          ∙ ap₂ (λ x y. s.out ++ x ∷ y ∷ []) (table_read s.mem table (v / 16 % 16) h (omega arith))
              (table_read s.mem table (v % 16) h (omega arith));
      mem = refl;
      copy = refl;
    }
