-- ===== src/AsmMacros/Written.antt =====
-- rsd-asm-macros.h: RSD_IO_WRITE_GPR from its start to its end.
use rsd_mp.Common.{ℕ, ◌/◌, ◌^◌, ◌<◌, ◌∷◌, ◌++◌, ◌≡◌, ◌≢◌, sym, ap, ◌∙◌, subst}
use rsd_mp.Common.Memory.{store}
use rsd_mp.Common.Memory.Laws.{store_ne}
use rsd_mp.AsmMacros.{
  State, run, rsd_io_write_byte, save_registers, next_byte, restore_registers, rsd_io_write_gpr, a0,
  a1, t0, mv,
}
use rsd_mp.AsmMacros.Byte.{IsTable}
use rsd_mp.AsmMacros.Gpr.{run-append, save_registers_lem, copied, IsSaveArea}
use rsd_mp.AsmMacros.Printed.{IsApart, apart-IsTable, IsWritten, printed_four}

-- A table of a byte of the macro.
abbrev pub IsTableOf : ℕ → State → ℕ → Type 0
IsTableOf save s table = IsTable s.mem table × IsApart save table

-- For a register other than `t0` with a value of 32 bits, the macro prints the eight digits that
-- `serial_out_hex` of the test programs prints. But it does not restore the registers that it has
-- saved: `ra`, `a0` and `a1` get the words of the text "0123456789ab" of its last byte. The four
-- tables have their digits and do not overlap with the words for the registers, which lie apart from
-- the serial port.
pub rsd_io_write_gpr-IsWritten :
    (s : State) (r save table1 table2 table3 table4 : ℕ)
    → r ≢ t0
    → s.regs r < 2 ^ 32
    → IsSaveArea save
    → IsTableOf save s table1
    → IsTableOf save s table2
    → IsTableOf save s table3
    → IsTableOf save s table4
    → IsWritten s (s.regs r) (run (rsd_io_write_gpr save table1 table2 table3 table4 r) s)
unfolding rsd_io_write_gpr
rsd_io_write_gpr-IsWritten s r save table1 table2 table3 table4 ne lt area i1 i2 i3 i4 =
    let v : ℕ = s.regs r in
    let e : store s.regs t0 save r ≡ v = store_ne s.regs t0 save r ne in
    let there =
      λ (table : ℕ) (i : IsTableOf save s table). apart-IsTable save r table s area i.1 i.0 in
    let w =
      printed_four (copied save r s) v table1 table2 table3 table4 lt (first v e) (second v e)
        (there table1 i1) (there table2 i2) (there table3 i3) (there table4 i4) in
    let started =
      run-append (save_registers save r)
        (rsd_io_write_byte table1 a0
          ++ (next_byte 16 table2
              ++ (next_byte 8 table3
                  ++ ((mv a0 a1 ∷ rsd_io_write_byte table4 a0) ++ restore_registers table4))))
        s
      ∙ ap (run _) (save_registers_lem save r s area) in
    subst (IsWritten s v) (sym started)
      (record { out = w.out; ra_lost = w.ra_lost; a0_lost = w.a0_lost; a1_lost = w.a1_lost })
  where
    first : (v : ℕ) → store s.regs t0 save r ≡ v → (copied save r s).regs a0 ≡ v / 2 ^ 24
    first v e = unfold store in ap (λ (t : ℕ). t / 2 ^ 24) e

    second : (v : ℕ) → store s.regs t0 save r ≡ v → (copied save r s).regs a1 ≡ v
    second v e = unfold store in e
