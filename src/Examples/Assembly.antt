-- ===== src/Examples/Assembly.antt =====
-- The theorems on the assembly macros at concrete inputs.
use rsd_mp.Common.{ℕ, ◌+◌, ◌*◌, ◌%◌, ◌<◌, [], ap, arith, ◌≡◌, inl}
use rsd_mp.Common.Memory.{Memory}
use rsd_mp.Serial.{hex_char}
use rsd_mp.AsmMacros.{State, run, rsd_io_write_gpr}
use rsd_mp.AsmMacros.Byte.{IsTable}
use rsd_mp.AsmMacros.Printed.{IsWritten}
use rsd_mp.AsmMacros.Written.{rsd_io_write_gpr-IsWritten}

-- The digits, at every multiple of 16.
abbrev tables : Memory
tables a = hex_char (a % 16)

abbrev machine : State
machine = record { regs = λ r. 0xdead0000 + r % 32; mem = tables; out = [] }

tables-IsTable : (n : ℕ) → n < 16 → IsTable tables (16 * n)
tables-IsTable n lt = (omega arith, λ d less. ap hex_char (digit d less))
  where
    digit : (d : ℕ) → d < 16 → (16 * n + d) % 16 ≡ d
    digit d less = omega arith

rsd_io_write_gpr-IsWritten_example :
    IsWritten machine 0xdead000c (run (rsd_io_write_gpr 0x1000 0 32 64 96 12) machine)
rsd_io_write_gpr-IsWritten_example =
    rsd_io_write_gpr-IsWritten machine 12 0x1000 0 32 64 96 (λ e. omega arith) (omega arith)
      (omega arith, inl (omega arith)) (tables-IsTable 0 (omega arith), inl (omega arith))
      (tables-IsTable 2 (omega arith), inl (omega arith))
      (tables-IsTable 4 (omega arith), inl (omega arith))
      (tables-IsTable 6 (omega arith), inl (omega arith))
