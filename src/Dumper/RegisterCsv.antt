-- ===== src/Dumper/RegisterCsv.antt =====
-- Dumper.h, class `RegisterFileCSV_Dumper`: the values of the registers at every commit, as a text
-- file with one line for each. The build has RSD_MARCH_FP_PIPE defined.
pub mod Laws
use rsd_mp.Common.{
  ℕ, zero, suc, List, [], ◌∷◌, ◌++◌, Bool, true, false, Option, none, some, get_elem?, leb,
  if◌then◌else◌, ◌>>=◌,
}
use rsd_mp.Common.Text.{Chars, codes}
use rsd_mp.Common.Int.{int_max}
use rsd_mp.Common.Format.{hex8}
use rsd_mp.TestBench.Registers.{lreg_num}

-- `m_file`: the lines written so far, or `none` for a null pointer. `cycles` is `m_cycle` plus one.
pub record RegisterFileCsvDumper : Type 0 where
  pub file : Option (List Chars)
  pub cycles : ℕ

unfoldable pub new_csv_dumper : RegisterFileCsvDumper
new_csv_dumper = record { file = none; cycles = 0 }

-- The flag says whether `fopen` succeeds.
unfoldable pub open_csv_dumper : Bool → RegisterFileCsvDumper → RegisterFileCsvDumper
open_csv_dumper true d = record { file = some []; cycles = 0 }
open_csv_dumper false d = record { file = none; cycles = 0 }

unfoldable pub close_csv_dumper : RegisterFileCsvDumper → RegisterFileCsvDumper
close_csv_dumper d = record d { file = none }

-- `ProceedCycle`: an overflow of `m_cycle`, an `int32_t`, is `none`.
unfoldable pub proceed_csv_cycle : RegisterFileCsvDumper → Option RegisterFileCsvDumper
proceed_csv_cycle d =
    if leb d.cycles int_max then some (record d { cycles = suc d.cycles }) else none

-- "0x%08x".
unfoldable pub csv_word : ℕ → Chars
csv_word v = b'0' ∷ b'x' ∷ hex8 v

-- The loop over the registers from `i` on, each with a comma in front; a read behind the end of
-- `regData` is `none`.
unfoldable pub csv_registers : ℕ → ℕ → List ℕ → Option Chars
unfolding csv_word
csv_registers zero i reg_data = some []
csv_registers (suc left) i reg_data = do
  v ← get_elem? reg_data i
  rest ← csv_registers left (suc i) reg_data
  some (b',' ∷ (csv_word v ++ rest))

-- `Dump`: the PC and the registers. A write to a null file pointer is `none`.
unfoldable pub dump_csv : ℕ → List ℕ → RegisterFileCsvDumper → Option RegisterFileCsvDumper
unfolding csv_registers
dump_csv pc reg_data d = do
  before ← d.file
  regs ← csv_registers lreg_num 0 reg_data
  some (record d { file = some (before ++ ((csv_word pc ++ (regs ++ codes "\n")) ∷ [])) })
