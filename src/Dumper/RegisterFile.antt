-- ===== src/Dumper/RegisterFile.antt =====
-- Dumper.h, class `RegisterFileHexDumper`: the values of the registers at the end of a simulation, as
-- a text file with one hexadecimal number to a line. The build has RSD_MARCH_FP_PIPE defined.
pub mod Laws
use rsd_mp.Common.{
  ℕ, zero, suc, ◌+◌, List, [], ◌∷◌, ◌++◌, Bool, true, false, Option, none, some, get_elem?, ◌>>=◌,
}
use rsd_mp.Common.Text.{Chars, codes}
use rsd_mp.Common.Format.{hex8}
use rsd_mp.TestBench.Registers.{lscalar_num, lscalar_fp_num}

-- `m_file`: the lines written so far, or `none` for a null pointer.
pub record RegisterFileHexDumper : Type 0 where
  pub file : Option (List Chars)

unfoldable pub new_hex_dumper : RegisterFileHexDumper
new_hex_dumper = record { file = none }

-- The flag says whether `fopen` succeeds.
unfoldable pub open_hex_dumper : Bool → RegisterFileHexDumper → RegisterFileHexDumper
open_hex_dumper true d = record { file = some [] }
open_hex_dumper false d = record { file = none }

unfoldable pub close_hex_dumper : RegisterFileHexDumper → RegisterFileHexDumper
close_hex_dumper d = record { file = none }

-- "0x%08x\n".
unfoldable pub hex_line : ℕ → Chars
hex_line v = b'0' ∷ b'x' ∷ (hex8 v ++ codes "\n")

-- A loop over the registers from `i` on; a read behind the end of `regData` is `none`.
unfoldable pub register_lines : ℕ → ℕ → List ℕ → Option (List Chars)
register_lines zero i reg_data = some []
register_lines (suc left) i reg_data = do
  v ← get_elem? reg_data i
  rest ← register_lines left (suc i) reg_data
  some (hex_line v ∷ rest)

-- `Dump`: the integer registers, the PC, the floating-point registers. A write to a null file pointer
-- is `none`.
unfoldable pub dump_registers : ℕ → List ℕ → RegisterFileHexDumper → Option RegisterFileHexDumper
dump_registers pc reg_data d = do
  before ← d.file
  scalars ← register_lines lscalar_num 0 reg_data
  fps ← register_lines lscalar_fp_num lscalar_num reg_data
  some (record { file = some (before ++ (scalars ++ (hex_line pc ∷ fps))) })
