-- ===== src/LinuxLoader/Safety.antt =====
-- loader.c: RSD runs only with a program that has been transferred.
use rsd_mp.Common.{
  ℕ, zero, suc, ◌+◌, ◌*◌, ◌/◌, Bool, true, false, not, Option, none, some, ◌==◌, leb, if◌then◌else◌,
  ◌≡◌, refl, ◌>>=◌,
}
use rsd_mp.Common.Text.{Chars}
use rsd_mp.Common.Int.{ℤ, pos, negsuc, int_max}
use rsd_mp.Common.Decimal.{atoi}
use rsd_mp.ProgramLoader.{send_program}
use rsd_mp.LinuxLoader.File.{Reading, mismatch, complete, read_file, uninitialised}
use rsd_mp.LinuxLoader.{
  Device, Arguments, Frame, Outcome, returned, polling, is_negative, transfer, open_devices,
  after_reading, read_sized, load_sized, after_one, read_negative, load_negative, check_size, load,
  ram_size,
}

-- A return has a negative code and leaves the devices as they were; RSD runs when the loader shows
-- its output.
abbrev pub IsSafe : Device → Option Outcome → Type 0
IsSafe d none = Unit
IsSafe d (some (returned c d')) = (is_negative c ≡ true) × (d' ≡ d)
IsSafe d (some (polling d')) = d'.done ≡ 1

branch-IsSafe :
    (d : Device) (b : Bool) (x y : Option Outcome)
    → IsSafe d x
    → IsSafe d y
    → IsSafe d (if b then x else y)
branch-IsSafe d true x y hx hy = hx
branch-IsSafe d false x y hx hy = hy

then-IsSafe {ℓ} :
    {A : Type ℓ}
    → (d : Device) (o : Option A) (k : A → Option Outcome) → ((a : A) → IsSafe d (k a))
    → IsSafe d (o >>= k)
then-IsSafe d none k h = tt
then-IsSafe d (some a) k h = h a

one-IsSafe : (d : Device) → IsSafe d (some (returned (negsuc 0) d))
unfolding is_negative
one-IsSafe d = (refl, refl)

two-IsSafe : (d : Device) → IsSafe d (some (returned (negsuc 1) d))
unfolding is_negative
two-IsSafe d = (refl, refl)

transfer-IsSafe : (f : Frame) (n : ℕ) (prog : Chars) (d : Device) → IsSafe d (transfer f n prog d)
unfolding transfer
transfer-IsSafe f n prog d =
    then-IsSafe d (send_program f.val f.behind (ram_size / 4) n prog d.mem) _
      (λ s. branch-IsSafe d (leb (n / 8) (ram_size / 4)) _ none refl tt)

open_devices-IsSafe :
    (a : Arguments) (f : Frame) (n : ℕ) (prog : Chars) (d : Device)
    → IsSafe d (open_devices a f n prog d)
unfolding open_devices
open_devices-IsSafe a f n prog d = branch-IsSafe d (is_negative a.ram) _ _ (two-IsSafe d) (
    branch-IsSafe d (not a.ram_mapped) _ _ (one-IsSafe d) (
      branch-IsSafe d (is_negative a.pl2ps) _ _ (two-IsSafe d) (
        branch-IsSafe d (not a.pl2ps_mapped) _ _ (one-IsSafe d) (
          branch-IsSafe d (is_negative a.pl2ps) _ _ (two-IsSafe d) (
            branch-IsSafe d (not a.ps2pl_mapped) _ _ (one-IsSafe d)
              (transfer-IsSafe f n prog d))))))

after_reading-IsSafe :
    (a : Arguments) (f : Frame) (n : ℕ) (d : Device) (r : Reading)
    → IsSafe d (after_reading a f n d r)
unfolding after_reading
after_reading-IsSafe a f n d mismatch = one-IsSafe d
after_reading-IsSafe a f n d (complete prog) = open_devices-IsSafe a f n prog d

read_sized-IsSafe :
    (a : Arguments) (f : Frame) (n : ℕ) (d : Device) (file : Option Chars)
    → IsSafe d (read_sized a f n d file)
unfolding read_sized
read_sized-IsSafe a f n d none = one-IsSafe d
read_sized-IsSafe a f n d (some file) =
    branch-IsSafe d (leb (n * 2 + 3) int_max) _ none
      (then-IsSafe d (read_file f.slack (n / 16) f.line (uninitialised (n * 2 + 3) 0 f.prog) file)
        (after_reading a f (n * 2) d) (after_reading-IsSafe a f (n * 2) d))
      tt

after_one-IsSafe : (d : Device) (r : Reading) → IsSafe d (after_one d r)
unfolding after_one
after_one-IsSafe d mismatch = one-IsSafe d
after_one-IsSafe d (complete prog) = tt

read_negative-IsSafe :
    (f : Frame) (n : ℕ) (d : Device) (file : Option Chars) → IsSafe d (read_negative f n d file)
unfolding read_negative
read_negative-IsSafe f n d none = one-IsSafe d
read_negative-IsSafe f zero d (some file) =
    then-IsSafe d (read_file f.slack 0 f.line (uninitialised 1 0 f.prog) file) (after_one d)
      (after_one-IsSafe d)
read_negative-IsSafe f (suc n) d (some file) = tt

check_size-IsSafe : (a : Arguments) (f : Frame) (d : Device) (v : ℤ) → IsSafe d (check_size a f d v)
unfolding check_size load_sized load_negative
check_size-IsSafe a f d (pos zero) = one-IsSafe d
check_size-IsSafe a f d (pos (suc n)) =
    branch-IsSafe d (leb (suc n * 2) int_max) _ none (read_sized-IsSafe a f (suc n) d a.file) tt
check_size-IsSafe a f d (negsuc n) =
    branch-IsSafe d (leb (n * 2 + 2) (int_max + 1)) _ none (read_negative-IsSafe f n d a.file) tt

-- Whatever the arguments, the file and the devices are: where the loader returns, its code is
-- negative and it has written neither the memory of RSD nor the register that starts it; where it
-- comes to the loop that shows the output, RSD has been started.
pub load-IsSafe : (a : Arguments) (f : Frame) (d : Device) → IsSafe d (load a f d)
unfolding load
load-IsSafe a f d =
    branch-IsSafe d (not (a.argc == 3)) _ _ (one-IsSafe d)
      (then-IsSafe d (atoi a.size_argument) (check_size a f d) (check_size-IsSafe a f d))
