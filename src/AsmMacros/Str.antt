-- ===== src/AsmMacros/Str.antt =====
-- rsd-asm-macros.h: RSD_IO_WRITE_STR and RSD_IO_WRITE_GPR_LINE. A loop that needs more rounds than
-- `fuel` is `none`.
pub mod Laws
use rsd_mp.Common.{
  ℕ, zero, suc, ◌+◌, ◌%◌, ◌^◌, List, [], ◌∷◌, Bool, true, false, Option, none, some, ◌==◌, ◌>>=◌,
}
use rsd_mp.AsmMacros.{
  State, Instr, la, li, mv, lbu, sw, exec, run, set_reg, rsd_serial_addr, rsd_io_write_gpr, a0, t0,
  t1,
}

-- The loop from the label 10001 on.
unfoldable pub str_loop : ℕ → State → Option State
str_loop zero s = none
str_loop (suc fuel) s =
    let s1 = exec (lbu a0 t0) s in
    let s2 = set_reg t0 ((s1.regs t0 + 1) % 2 ^ 32) s1 in
    elim (s2.regs a0 == 0) [ true ↦ some s2 | false ↦ str_loop fuel (exec (sw a0 0 t1) s2) ]

-- RSD_IO_WRITE_STR; `label` is the address of its string.
unfoldable pub rsd_io_write_str : ℕ → ℕ → State → Option State
unfolding str_loop
rsd_io_write_str fuel label s =
    str_loop fuel (run (la a0 label ∷ mv t0 a0 ∷ li t1 rsd_serial_addr ∷ []) s)

-- RSD_IO_WRITE_GPR_LINE; `end` is the address of the string of the end of the line.
unfoldable pub rsd_io_write_gpr_line : ℕ → ℕ → ℕ → ℕ → ℕ → ℕ → ℕ → State → Option State
unfolding rsd_io_write_str
rsd_io_write_gpr_line save table1 table2 table3 table4 end r s =
    rsd_io_write_str 2 end (run (rsd_io_write_gpr save table1 table2 table3 table4 r) s)
