-- ===== src/AsmMacros/Printed.antt =====
-- rsd-asm-macros.h: RSD_IO_WRITE_GPR prints what serial_out_hex of the test programs prints, but it
-- does not restore the registers.
use rsd_mp.Common.{
  inl, inr, ℕ, ◌+◌, ◌*◌, ◌/◌, ◌%◌, ◌^◌, ◌<◌, ◌≤◌, List, ◌∷◌, ◌++◌, ◌≡◌, ◌⊎◌, refl, sym, ap, ap₂,
  ◌∙◌, arith, append_assoc, subst,
}
use rsd_mp.Common.Text.{Chars}
use rsd_mp.Common.Memory.{Memory}
use rsd_mp.Serial.{hex_char, hex_loop, shift_nibble, serial_out_hex}
use rsd_mp.Serial.Hex.{shift_nibble-mod}
use rsd_mp.AsmMacros.{
  State, Instr, run, rsd_io_write_byte, next_byte, restore_registers, ra, a0, a1, mv, load_word,
}
use rsd_mp.AsmMacros.Byte.{IsTable, digits, rsd_io_write_byte-IsPrinted}
use rsd_mp.AsmMacros.Gpr.{
  run-append, next_byte-IsPrinted, last_byte-IsPrinted, saved-other, copied, IsSaveArea,
}

-- The digits of the four bytes are the eight digits of the number.
bytes_digits :
    (v : ℕ)
    → v < 2 ^ 32
    → digits (v / 2 ^ 24) ++ (digits (v / 2 ^ 16) ++ (digits (v / 2 ^ 8) ++ digits v))
      ≡ serial_out_hex v
unfolding serial_out_hex hex_loop
bytes_digits v h =
    let s1 = shift_nibble v in
    let s2 = shift_nibble s1 in
    let s3 = shift_nibble s2 in
    let s4 = shift_nibble s3 in
    let s5 = shift_nibble s4 in
    let s6 = shift_nibble s5 in
    let s7 = shift_nibble s6 in
    let h1 = shift_nibble-mod v h in
    let h2 = shift_nibble-mod s1 (h1.1) in
    let h3 = shift_nibble-mod s2 (h2.1) in
    let h4 = shift_nibble-mod s3 (h3.1) in
    let h5 = shift_nibble-mod s4 (h4.1) in
    let h6 = shift_nibble-mod s5 (h5.1) in
    let h7 = shift_nibble-mod s6 (h6.1) in
    let e7 : v / 2 ^ 24 / 16 % 16 ≡ s7 % 16 = omega (arith, h1, h2, h3, h4, h5, h6, h7) in
    let e6 : v / 2 ^ 24 % 16 ≡ s6 % 16 = omega (arith, h1, h2, h3, h4, h5, h6) in
    let e5 : v / 2 ^ 16 / 16 % 16 ≡ s5 % 16 = omega (arith, h1, h2, h3, h4, h5) in
    let e4 : v / 2 ^ 16 % 16 ≡ s4 % 16 = omega (arith, h1, h2, h3, h4) in
    let e3 : v / 2 ^ 8 / 16 % 16 ≡ s3 % 16 = omega (arith, h1, h2, h3) in
    let e2 : v / 2 ^ 8 % 16 ≡ s2 % 16 = omega (arith, h1, h2) in
    let e1 : v / 16 % 16 ≡ s1 % 16 = omega (arith, h1) in
    digit e7
      (digit e6 (digit e5 (digit e4 (digit e3 (digit e2 (ap₂ (λ x t. hex_char x ∷ t) e1 refl))))))
  where
    digit : {a b : ℕ} {cs ds : Chars} → a ≡ b → cs ≡ ds → hex_char a ∷ cs ≡ hex_char b ∷ ds
    digit e f = ap₂ (λ x t. hex_char x ∷ t) e f

-- A table that does not overlap with the words for the registers.
abbrev pub IsApart : ℕ → ℕ → Type 0
IsApart save table = (table + 16 ≤ save) ⊎ (save + 12 ≤ table)

pub apart-IsTable :
    (save r table : ℕ) (s : State)
    → IsSaveArea save
    → IsApart save table
    → IsTable s.mem table
    → IsTable (copied save r s).mem table
apart-IsTable save r table s (fits, away) far (room, h) =
    (room, λ d lt. saved-other save (table + d) s fits (outside d lt far) ∙ h d lt)
  where
    outside : (d : ℕ) → d < 16 → IsApart save table → (table + d < save) ⊎ (save + 12 ≤ table + d)
    outside d lt (inl below) = inl (omega arith)
    outside d lt (inr above) = inr (omega arith)

first_byte :
    (mem : Memory) (table k : ℕ)
    → IsTable mem table
    → k < 16
    → mem ((table + k) % 2 ^ 32) ≡ hex_char k
first_byte mem table k (room, h) lt =
    let e : (table + k) % 2 ^ 32 ≡ table + k = omega arith in ap mem e ∙ h k lt

later_byte :
    (mem : Memory) (table k j : ℕ)
    → IsTable mem table
    → k + j < 16
    → mem ((table + k) % 2 ^ 32 + j) ≡ hex_char (k + j)
later_byte mem table k j (room, h) lt =
    let e : (table + k) % 2 ^ 32 + j ≡ table + (k + j) = omega arith in ap mem e ∙ h (k + j) lt

-- The four digits from `k` on, as a word.
word_of_table :
    (mem : Memory) (table k : ℕ)
    → IsTable mem table
    → k ≤ 12
    → load_word ((table + k) % 2 ^ 32) mem
      ≡ hex_char k
        + hex_char (k + 1) * 2 ^ 8
        + hex_char (k + 2) * 2 ^ 16
        + hex_char (k + 3) * 2 ^ 24
unfolding load_word
word_of_table mem table k t le =
    let e0 = first_byte mem table k t (omega arith) in
    let e1 = later_byte mem table k 1 t (omega arith) in
    let e2 = later_byte mem table k 2 t (omega arith) in
    let e3 = later_byte mem table k 3 t (omega arith) in omega (arith, e0, e1, e2, e3)

-- What the macro leaves, of register `r` with the tables of its four bytes: the digits of the value on
-- the serial port, and the first twelve digits of the last table in `ra`, `a0` and `a1`.
pub record IsWritten (s : State) (v : ℕ) (s' : State) : Type 0 where
  pub out : s'.out ≡ s.out ++ serial_out_hex v
  pub ra_lost : s'.regs ra ≡ 0x33323130
  pub a0_lost : s'.regs a0 ≡ 0x37363534
  pub a1_lost : s'.regs a1 ≡ 0x62613938

restored :
    (s : State) (table : ℕ)
    → IsTable s.mem table
    → ((run (restore_registers table) s).out ≡ s.out)
      × ((run (restore_registers table) s).regs ra ≡ 0x33323130)
      × ((run (restore_registers table) s).regs a0 ≡ 0x37363534)
      × ((run (restore_registers table) s).regs a1 ≡ 0x62613938)
unfolding run restore_registers
restored s table t = (
  refl,
  word_of_table s.mem table 0 t (omega arith) ∙ (unfold hex_char in refl),
  word_of_table s.mem table 4 t (omega arith) ∙ (unfold hex_char in refl),
  word_of_table s.mem table 8 t (omega arith) ∙ (unfold hex_char in refl),
)

-- The four bytes, one after the other.
pub printed_four :
    (s : State) (v table1 table2 table3 table4 : ℕ)
    → v < 2 ^ 32
    → s.regs a0 ≡ v / 2 ^ 24
    → s.regs a1 ≡ v
    → IsTable s.mem table1
    → IsTable s.mem table2
    → IsTable s.mem table3
    → IsTable s.mem table4
    → IsWritten s v (
        run
          (rsd_io_write_byte table1 a0
            ++ (next_byte 16 table2
                ++ (next_byte 8 table3
                    ++ ((mv a0 a1 ∷ rsd_io_write_byte table4 a0) ++ restore_registers table4))))
          s)
printed_four s v table1 table2 table3 table4 lt first copy i1 i2 i3 i4 =
    let s1 = run (rsd_io_write_byte table1 a0) s in
    let s2 = run (next_byte 16 table2) s1 in
    let s3 = run (next_byte 8 table3) s2 in
    let s4 = run (mv a0 a1 ∷ rsd_io_write_byte table4 a0) s3 in
    let p1 = rsd_io_write_byte-IsPrinted s table1 a0 i1 in
    let p2 = next_byte-IsPrinted s1 16 table2 (subst (λ m. IsTable m table2) (sym p1.mem) i2) in
    let m2 = p2.mem ∙ p1.mem in
    let p3 = next_byte-IsPrinted s2 8 table3 (subst (λ m. IsTable m table3) (sym m2) i3) in
    let m3 = p3.mem ∙ m2 in
    let p4 = last_byte-IsPrinted s3 table4 (subst (λ m. IsTable m table4) (sym m3) i4) in
    let m4 = p4.mem ∙ m3 in
    let c1 = p1.copy ∙ copy in
    let c2 = p2.copy ∙ c1 in
    let c3 = p3.copy ∙ c2 in
    let (kept, lost_ra, lost_a0, lost_a1) =
      restored s4 table4 (subst (λ m. IsTable m table4) (sym m4) i4) in
    let o1 = p1.out ∙ ap (λ t. s.out ++ digits t) first in
    let o2 = p2.out ∙ ap₂ (λ x t. x ++ digits (t / 2 ^ 16)) o1 c1 in
    let o3 = p3.out ∙ ap₂ (λ x t. x ++ digits (t / 2 ^ 8)) o2 c2 in
    let o4 = p4.out ∙ ap₂ (λ x t. x ++ digits t) o3 c3 in
    let all = runs s in
    subst (IsWritten s v) (sym all) (record {
      out =
          kept
          ∙ o4
          ∙ joined (digits (v / 2 ^ 24)) (digits (v / 2 ^ 16)) (digits (v / 2 ^ 8)) (digits v)
          ∙ ap (λ t. s.out ++ t) (bytes_digits v lt);
      ra_lost = lost_ra;
      a0_lost = lost_a0;
      a1_lost = lost_a1;
    })
  where
    joined : (a b c d : Chars) → (((s.out ++ a) ++ b) ++ c) ++ d ≡ s.out ++ (a ++ (b ++ (c ++ d)))
    joined a b c d =
        append_assoc ((s.out ++ a) ++ b) c d
        ∙ append_assoc (s.out ++ a) b (c ++ d)
        ∙ append_assoc s.out a (b ++ (c ++ d))

    last : List Instr
    last = mv a0 a1 ∷ rsd_io_write_byte table4 a0

    runs :
        (s : State)
        → run
            (rsd_io_write_byte table1 a0
              ++ (next_byte 16 table2
                  ++ (next_byte 8 table3 ++ (last ++ restore_registers table4))))
            s
          ≡ run (restore_registers table4) (
              run last (
                run
                  (next_byte 8 table3)
                  (run (next_byte 16 table2) (run (rsd_io_write_byte table1 a0) s))))
    runs s =
        run-append (rsd_io_write_byte table1 a0) _ s
        ∙ run-append (next_byte 16 table2) _ (run (rsd_io_write_byte table1 a0) s)
        ∙ run-append (next_byte 8 table3) _
            (run (next_byte 16 table2) (run (rsd_io_write_byte table1 a0) s))
        ∙ run-append last (restore_registers table4) _
