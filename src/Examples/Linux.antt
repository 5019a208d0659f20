-- ===== src/Examples/Linux.antt =====
-- The theorems on the Linux program loader at concrete inputs.
use rsd_mp.Common.{◌/◌, List, [], ◌∷◌, ◌++◌, true, none, some, ◌≡◌, refl, arith, length, replicate}
use rsd_mp.Common.Text.{Chars, codes}
use rsd_mp.Common.Int.{pos}
use rsd_mp.Common.Format.{unsigned}
use rsd_mp.LinuxLoader.{Device, Arguments, Frame, load, is_negative}
use rsd_mp.LinuxLoader.File.Laws.{file_of, with_end}
use rsd_mp.LinuxLoader.Laws.{IsLoaded, IsCall, IsFrame, Opens, load-IsLoaded, load-overflow}
use rsd_mp.LinuxLoader.Safety.{IsSafe, load-IsSafe}
use rsd_mp.LinuxLoader.Polling as Polling
use rsd_mp.LinuxLoader.Polling.Laws.{shown, items, reports, at_start, poll_loop-progress}
use rsd_mp.Examples.Loaders.{two_lines, two_lines-IsLine, zeros, garbage, behind, ends}

abbrev call : Arguments
call = record {
  argc = 3;
  size_argument = unsigned 32;
  file = some (file_of two_lines ++ []);
  ram = pos 3;
  pl2ps = pos 4;
  ps2pl = pos 5;
  ram_mapped = true;
  pl2ps_mapped = true;
  ps2pl_mapped = true;
}

abbrev line_array : Chars
line_array = replicate 32 b'?'

abbrev frame : Frame
frame = record { slack = 2; line = line_array; prog = zeros; val = garbage; behind = behind }

abbrev device : Device
device = record { done = 0; mem = zeros }

call-IsCall : IsCall call 32 (file_of two_lines ++ [])
call-IsCall = record {
  argc = refl;
  size_argument = refl;
  file = refl;
  positive = omega arith;
  fits = omega arith;
}

call-Opens : Opens call
unfolding is_negative
call-Opens = record {
  ram = refl;
  pl2ps = refl;
  ram_mapped = refl;
  pl2ps_mapped = refl;
  ps2pl_mapped = refl;
}

frame-IsFrame : IsFrame frame
unfolding replicate
frame-IsFrame = record { slack = omega arith; line = refl; val = refl; ends = ends }

load-IsLoaded_example : IsLoaded two_lines device (load call frame device)
load-IsLoaded_example =
    load-IsLoaded call frame device two_lines [] two_lines-IsLine call-IsCall call-Opens
      frame-IsFrame (omega arith)

abbrev tight : Frame
tight = record { slack = 0; line = line_array; prog = zeros; val = garbage; behind = behind }

abbrev first_line : Chars
first_line = codes "00000000000000000000000000000000"

load-overflow_example : load call tight device ≡ none
load-overflow_example =
    load-overflow call tight device first_line
      (with_end (codes "0123456789abcdefFEDCBA9876543210") ++ []) 32 two_lines-IsLine.0 call-IsCall
      refl

load-IsSafe_example : IsSafe device (load call frame device)
load-IsSafe_example = load-IsSafe call frame device

abbrev rounds : List Polling.Sample
rounds =
    record {
      empty = 0;
      item = 65;
      last_committed_pc = 4096;
      committed_insn_count = 7;
      empty_again = 1;
      program_wordsize = 0;
    }
    ∷ []

poll_loop-progress_example :
    (shown (Polling.poll_loop rounds at_start).out ≡ items rounds)
    × (reports (Polling.poll_loop rounds at_start).out ≡ length rounds / 10000001)
poll_loop-progress_example = poll_loop-progress rounds
