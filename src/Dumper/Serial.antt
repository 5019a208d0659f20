-- ===== src/Dumper/Serial.antt =====
-- Dumper.h, class `SerialDumper`: the bytes that the processor sends to its serial port are saved in
-- a file and shown on the terminal.
pub mod Laws
use rsd_mp.Common.{
  ℕ, ◌%◌, List, [], ◌∷◌, ◌++◌, Bool, true, false, not, ◌&&◌, Option, none, some, ◌==◌,
  if◌then◌else◌,
}
use rsd_mp.Common.Text.{Chars}

-- `m_file`, the bytes written so far or `none` for a null pointer; `m_outToSTDOUT`; and what was
-- written to the terminal.
pub record SerialDumper : Type 0 where
  pub file : Option Chars
  pub out_to_stdout : Bool
  pub stdout : Chars

unfoldable pub new_serial : Bool → SerialDumper
new_serial out = record { file = none; out_to_stdout = out; stdout = [] }

-- The flag says whether `fopen` succeeds. The message on the terminal if it does not is left out.
unfoldable pub open_serial : Bool → SerialDumper → SerialDumper
open_serial true d = record d { file = some [] }
open_serial false d = record d { file = none }

unfoldable pub close_serial : SerialDumper → SerialDumper
close_serial d = record d { file = none }

unfoldable pub save_byte : Bool → ℕ → Option Chars → Option Chars
save_byte we value none = none
save_byte we value (some bytes) =
    some (if we && not (value % 256 == 0) then bytes ++ value % 256 ∷ [] else bytes)

-- A byte 0 is not saved, but it is shown.
unfoldable pub check_signal : Bool → ℕ → SerialDumper → SerialDumper
unfolding save_byte
check_signal we value d = record {
  file = save_byte we value d.file;
  out_to_stdout = d.out_to_stdout;
  stdout = if d.out_to_stdout && we then d.stdout ++ value % 256 ∷ [] else d.stdout;
}

-- The signal in each of the cycles of a run.
unfoldable pub check_signals : List (Bool × ℕ) → SerialDumper → SerialDumper
check_signals [] d = d
check_signals (s ∷ ss) d = check_signals ss (check_signal s.0 s.1 d)
