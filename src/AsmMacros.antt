-- ===== src/AsmMacros.antt =====
-- Processor/Src/Verification/TestCode/Asm/rsd-asm-macros.h: the macros that print a byte and a
-- register. A macro is the list of its instructions; the labels of its data are addresses.
pub mod Byte
pub mod Gpr
pub mod Printed
pub mod Written
pub mod Str
use rsd_mp.Common.{ℕ, ◌+◌, ◌*◌, ◌/◌, ◌%◌, ◌^◌, List, [], ◌∷◌, ◌++◌, ◌==◌, if◌then◌else◌}
use rsd_mp.Common.Text.{Chars}
use rsd_mp.Common.Memory.{Memory, store}

abbrev pub rsd_serial_addr : ℕ
rsd_serial_addr = 0x40002000

-- The numbers of the registers.
abbrev pub ra : ℕ
ra = 1

abbrev pub t0 : ℕ
t0 = 5

abbrev pub t1 : ℕ
t1 = 6

abbrev pub a0 : ℕ
a0 = 10

abbrev pub a1 : ℕ
a1 = 11

-- The instructions that the macros use. `andi` has the immediate 0x0f, and `la` the address of a
-- label; `sw` and `lw` have the offset behind the first register.
pub data Instr : Type 0 where
  mv : ℕ → ℕ → Instr
  srli : ℕ → ℕ → ℕ → Instr
  andi_0x0f : ℕ → ℕ → Instr
  la : ℕ → ℕ → Instr
  li : ℕ → ℕ → Instr
  add : ℕ → ℕ → ℕ → Instr
  lbu : ℕ → ℕ → Instr
  sw : ℕ → ℕ → ℕ → Instr
  lw : ℕ → ℕ → ℕ → Instr

-- The registers, the memory as bytes, and what the serial port has got.
pub record State : Type 0 where
  pub regs : Memory
  pub mem : Memory
  pub out : Chars

unfoldable pub set_reg : ℕ → ℕ → State → State
unfolding store
set_reg rd v s = record s { regs = store s.regs rd v }

-- A word is stored with its lowest byte first; a store to the serial port sends its lowest byte.
unfoldable pub store_word : ℕ → ℕ → State → State
unfolding store
store_word a v s =
    if a == rsd_serial_addr then record s { out = s.out ++ v % 2 ^ 8 ∷ [] } else record s {
      mem =
          store
            (store (store (store s.mem a (v % 2 ^ 8)) (a + 1) (v / 2 ^ 8 % 2 ^ 8)) (a + 2)
              (v / 2 ^ 16 % 2 ^ 8))
            (a + 3) (v / 2 ^ 24 % 2 ^ 8);
    }

unfoldable pub load_word : ℕ → Memory → ℕ
load_word a mem = mem a + mem (a + 1) * 2 ^ 8 + mem (a + 2) * 2 ^ 16 + mem (a + 3) * 2 ^ 24

unfoldable pub exec : Instr → State → State
unfolding set_reg store_word load_word
exec (mv rd rs) s = set_reg rd (s.regs rs) s
exec (srli rd rs n) s = set_reg rd (s.regs rs / 2 ^ n) s
exec (andi_0x0f rd rs) s = set_reg rd (s.regs rs % 2 ^ 4) s
exec (la rd a) s = set_reg rd a s
exec (li rd v) s = set_reg rd v s
exec (add rd rs rt) s = set_reg rd ((s.regs rs + s.regs rt) % 2 ^ 32) s
exec (lbu rd rs) s = set_reg rd (s.mem (s.regs rs)) s
exec (sw rs offset base) s = store_word ((s.regs base + offset) % 2 ^ 32) (s.regs rs) s
exec (lw rd offset base) s = set_reg rd (load_word ((s.regs base + offset) % 2 ^ 32) s.mem) s

unfoldable pub run : List Instr → State → State
unfolding exec
run [] s = s
run (i ∷ is) s = run is (exec i s)

-- RSD_IO_WRITE_BYTE; `table` is the address of its string.
unfoldable pub rsd_io_write_byte : ℕ → ℕ → List Instr
rsd_io_write_byte table r =
    mv a0 r
    ∷ mv t1 a0
    ∷ srli a0 t1 4
    ∷ andi_0x0f a0 a0
    ∷ la t0 table
    ∷ add a0 a0 t0
    ∷ lbu a0 a0
    ∷ li t0 rsd_serial_addr
    ∷ sw a0 0 t0
    ∷ andi_0x0f a0 t1
    ∷ la t0 table
    ∷ add a0 a0 t0
    ∷ lbu a0 a0
    ∷ li t0 rsd_serial_addr
    ∷ sw a0 0 t0
    ∷ []

-- RSD_IO_WRITE_GPR up to the first byte; `save` is the address of its words.
unfoldable pub save_registers : ℕ → ℕ → List Instr
save_registers save r =
    la t0 save ∷ sw ra 0 t0 ∷ sw a0 4 t0 ∷ sw a1 8 t0 ∷ mv a0 r ∷ mv a1 a0 ∷ srli a0 a0 24 ∷ []

-- A later byte.
unfoldable pub next_byte : ℕ → ℕ → List Instr
unfolding rsd_io_write_byte
next_byte n table = mv a0 a1 ∷ srli a0 a0 n ∷ rsd_io_write_byte table a0

unfoldable pub restore_registers : ℕ → List Instr
restore_registers label = la t0 label ∷ lw ra 0 t0 ∷ lw a0 4 t0 ∷ lw a1 8 t0 ∷ []

-- RSD_IO_WRITE_GPR. Each of the four macros in it defines the label 10000 again, so that the last
-- `10000b` is the table of the last of them. The last byte has no shift.
unfoldable pub rsd_io_write_gpr : ℕ → ℕ → ℕ → ℕ → ℕ → ℕ → List Instr
unfolding save_registers next_byte restore_registers rsd_io_write_byte
rsd_io_write_gpr save table1 table2 table3 table4 r =
    save_registers save r
    ++ (rsd_io_write_byte table1 a0
        ++ (next_byte 16 table2
            ++ (next_byte 8 table3
                ++ (mv a0 a1 ∷ (rsd_io_write_byte table4 a0 ++ restore_registers table4)))))
