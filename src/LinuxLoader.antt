-- ===== src/LinuxLoader.antt =====
-- Processor/Project/Vivado/ARM_Linux/ProgramLoader/loader.c: the program that loads RSD's main memory
-- from Linux on the board, starts RSD and shows its output. `int` and `unsigned long` have 32 bits.
pub mod File
pub mod Safety
pub mod Laws
pub mod Polling
use rsd_mp.Common.{
  ℕ, zero, suc, ◌+◌, ◌*◌, ◌/◌, List, [], ◌∷◌, Bool, true, false, not, Option, none, some, ◌==◌, leb,
  if◌then◌else◌, ◌>>=◌,
}
use rsd_mp.Common.Text.{Chars}
use rsd_mp.Common.Int.{ℤ, pos, negsuc, int_max}
use rsd_mp.Common.Decimal.{atoi}
use rsd_mp.Common.Memory.{Memory}
use rsd_mp.ProgramLoader.{Cursor, send_program}
use rsd_mp.LinuxLoader.File.{Reading, mismatch, complete, read_file, uninitialised}

abbrev pub ram_size : ℕ
ram_size = 0x10000000

-- The two devices that the loader writes: the register that releases RSD from reset, and the memory.
pub record Device : Type 0 where
  pub done : ℕ
  pub mem : Memory

-- What the loader is run with: its arguments, of which `argv[2]` is `size_argument`; the file that
-- `argv[1]` names, or `none` if it cannot be opened; the results of the calls of `open` and `mmap`.
pub record Arguments : Type 0 where
  pub argc : ℕ
  pub size_argument : Chars
  pub file : Option Chars
  pub ram : ℤ
  pub pl2ps : ℤ
  pub ps2pl : ℤ
  pub ram_mapped : Bool
  pub pl2ps_mapped : Bool
  pub ps2pl_mapped : Bool

-- What the compiler and the machine leave open: the bytes behind the array `line` that hold nothing
-- else, and the first contents of the arrays `line`, `prog` and `val` and of the memory behind `val`.
pub record Frame : Type 0 where
  pub slack : ℕ
  pub line : Chars
  pub prog : Memory
  pub val : Chars
  pub behind : Chars

-- `main` returns a code, or it comes to the loop that shows the output of RSD and never ends.
pub data Outcome : Type 0 where
  returned : ℤ → Device → Outcome
  polling : Device → Outcome

abbrev pub minus_one : ℤ
minus_one = negsuc 0

abbrev pub minus_two : ℤ
minus_two = negsuc 1

unfoldable pub is_negative : ℤ → Bool
is_negative (pos n) = false
is_negative (negsuc n) = true

-- From the reset on. `none` is undefined: a read behind the end of `prog`, or a program that does not
-- fit the memory that is mapped.
unfoldable pub transfer : Frame → ℕ → Chars → Device → Option Outcome
transfer f program_charsize prog d = do
  let held = record d { done = 0 }
  s ← send_program f.val f.behind (ram_size / 4) program_charsize prog held.mem
  if leb (program_charsize / 8) (ram_size / 4)
      then some (polling (record { done = 1; mem = s.mem }))
      else none

-- The devices are opened and mapped one after the other. The test behind `ps2pl_open` looks at
-- `pl2ps` again.
unfoldable pub open_devices : Arguments → Frame → ℕ → Chars → Device → Option Outcome
unfolding transfer is_negative
open_devices a f program_charsize prog d =
    if is_negative a.ram
    then some (returned minus_two d)
    else if not a.ram_mapped
    then some (returned minus_one d)
    else if is_negative a.pl2ps
    then some (returned minus_two d)
    else if not a.pl2ps_mapped
    then some (returned minus_one d)
    else if is_negative a.pl2ps
    then some (returned minus_two d)
    else if not a.ps2pl_mapped
    then some (returned minus_one d)
    else transfer f program_charsize prog d

unfoldable pub after_reading : Arguments → Frame → ℕ → Device → Reading → Option Outcome
unfolding open_devices
after_reading a f program_charsize d mismatch = some (returned minus_one d)
after_reading a f program_charsize d (complete prog) = open_devices a f program_charsize prog d

-- The file, if it was opened, for a positive size. The size of `prog` has to be an `int`.
unfoldable pub read_sized : Arguments → Frame → ℕ → Device → Option Chars → Option Outcome
unfolding after_reading
read_sized a f size d none = some (returned minus_one d)
read_sized a f size d (some file) =
    if leb (size * 2 + 3) int_max
    then (read_file f.slack (size / 16) f.line (uninitialised (size * 2 + 3) 0 f.prog) file
        >>= after_reading a f (size * 2) d)
    else none

-- `program_charsize` has to be an `int`.
unfoldable pub load_sized : Arguments → Frame → ℕ → Device → Option Outcome
unfolding read_sized
load_sized a f size d = if leb (size * 2) int_max then read_sized a f size d a.file else none

-- For a size of -1 the array `prog` has one character, so that the first line does not fit; for less
-- its size is negative, which is undefined.
unfoldable pub after_one : Device → Reading → Option Outcome
after_one d mismatch = some (returned minus_one d)
after_one d (complete prog) = none

unfoldable pub read_negative : Frame → ℕ → Device → Option Chars → Option Outcome
unfolding after_one
read_negative f n d none = some (returned minus_one d)
read_negative f zero d (some file) =
    read_file f.slack 0 f.line (uninitialised 1 0 f.prog) file >>= after_one d
read_negative f (suc n) d (some file) = none

-- The size is -(n + 1).
unfoldable pub load_negative : Arguments → Frame → ℕ → Device → Option Outcome
unfolding read_negative
load_negative a f n d = if leb (n * 2 + 2) (int_max + 1) then read_negative f n d a.file else none

unfoldable pub check_size : Arguments → Frame → Device → ℤ → Option Outcome
unfolding load_sized load_negative
check_size a f d (pos zero) = some (returned minus_one d)
check_size a f d (pos (suc n)) = load_sized a f (suc n) d
check_size a f d (negsuc n) = load_negative a f n d

-- `main`. A pointer from `argv` is never equal to that of a literal, so that `-h` and `--help` are
-- not recognised, and a call with one argument returns -1 as any other with a wrong number does.
unfoldable pub load : Arguments → Frame → Device → Option Outcome
unfolding check_size
load a f d =
    if not (a.argc == 3)
    then some (returned minus_one d)
    else (atoi a.size_argument >>= check_size a f d)
