-- ===== src/LinuxLoader/Laws.antt =====
-- loader.c: from the text of `code.hex` to the memory of RSD.
use rsd_mp.Common.{
  ℕ, zero, suc, ◌+◌, ◌*◌, ◌/◌, ◌<◌, ◌≤◌, List, ◌++◌, true, false, Option, none, some, length,
  get_elem?, concat, ◌≡◌, refl, sym, ap, ◌∙◌, arith, All, le→leb, subst, ◌>>=◌,
}
use rsd_mp.Common.Text.{Chars}
use rsd_mp.Common.Int.{int_max}
use rsd_mp.Common.Format.{unsigned}
use rsd_mp.Common.Decimal.Laws.{atoi-unsigned}
use rsd_mp.ProgramLoader.Word.{EndsNumber}
use rsd_mp.ProgramLoader.Line.{IsLine, line_value}
use rsd_mp.ProgramLoader.Transfer.{send_program-IsSent}
use rsd_mp.LinuxLoader.File.{read_file, uninitialised}
use rsd_mp.LinuxLoader.File.Laws.{
  file_of, length-uninitialised, read_file-lines, read_file-short, read_file-overflow, with_end,
}
use rsd_mp.LinuxLoader.{
  Device, Arguments, Frame, Outcome, returned, polling, minus_one, is_negative, transfer,
  open_devices, after_reading, read_sized, load_sized, check_size, load, ram_size,
}

-- All calls of `open` and `mmap` succeed.
pub record Opens (a : Arguments) : Type 0 where
  pub ram : is_negative a.ram ≡ false
  pub pl2ps : is_negative a.pl2ps ≡ false
  pub ram_mapped : a.ram_mapped ≡ true
  pub pl2ps_mapped : a.pl2ps_mapped ≡ true
  pub ps2pl_mapped : a.ps2pl_mapped ≡ true

-- Two bytes behind `line` hold nothing else, the arrays have their sizes, and no hexadecimal digit
-- stands behind `val`.
pub record IsFrame (f : Frame) : Type 0 where
  pub slack : 2 ≤ f.slack
  pub line : length f.line ≡ 32
  pub val : length f.val ≡ 8
  pub ends : EndsNumber f.behind

-- The loader is called with the file and its size in bytes.
pub record IsCall (a : Arguments) (size : ℕ) (text : Chars) : Type 0 where
  pub argc : a.argc ≡ 3
  pub size_argument : a.size_argument ≡ unsigned size
  pub file : a.file ≡ some text
  pub positive : 0 < size
  pub fits : size * 2 + 3 ≤ int_max

load_reads :
    (a : Arguments) (f : Frame) (d : Device) (size : ℕ) (file : Chars)
    → IsCall a size file
    → load a f d ≡ (
        read_file f.slack (size / 16) f.line (uninitialised (size * 2 + 3) 0 f.prog) file
        >>= after_reading a f (size * 2) d)
unfolding load check_size load_sized read_sized
load_reads a f d zero file c = absurd (omega (arith, c.positive))
load_reads a f d (suc n) file c =
    rw
      (
        c.argc,
        c.size_argument,
        atoi-unsigned (suc n) (omega (arith, c.fits)),
        c.file,
        le→leb (suc n * 2) int_max (omega (arith, c.fits)),
        le→leb (suc n * 2 + 3) int_max c.fits,
      )
      refl

opened :
    (a : Arguments) (f : Frame) (n : ℕ) (prog : Chars) (d : Device)
    → Opens a
    → open_devices a f n prog d ≡ transfer f n prog d
unfolding open_devices
opened a f n prog d o = rw (o.ram, o.ram_mapped, o.pl2ps, o.pl2ps_mapped, o.ps2pl_mapped) refl

-- RSD has been started, and its memory holds the lines: word `4 * n + i` is the number that the
-- digits `(3 - i) * 8` to `(3 - i) * 8 + 7` of line `n` spell.
pub record IsLoaded (ls : List Chars) (d : Device) (result : Option Outcome) : Type 0 where
  pub final : Device
  pub returns : result ≡ some (polling final)
  pub started : final.done ≡ 1
  pub words :
      (n i : ℕ) (l : Chars)
      → get_elem? ls n ≡ some l
      → i < 4
      → final.mem (4 * n + i) ≡ line_value l i
  pub cleared : (m : ℕ) → 4 * length ls ≤ m → m < ram_size / 4 → final.mem m ≡ 0
  pub kept : (m : ℕ) → ram_size / 4 ≤ m → final.mem m ≡ d.mem m

transfer-IsLoaded :
    (f : Frame) (ls : List Chars) (more : Chars) (d : Device)
    → All IsLine ls
    → 4 * length ls ≤ ram_size / 4
    → IsFrame f
    → IsLoaded ls d (transfer f (32 * length ls) (concat ls ++ more) d)
unfolding transfer
transfer-IsLoaded f ls more d h room i =
    let sent = send_program-IsSent ls f.val f.behind more (ram_size / 4) d.mem h i.val i.ends in
    record {
      final = record { done = 1; mem = sent.final.mem };
      returns = rw (sent.returns, le→leb (32 * length ls / 8) (ram_size / 4) (omega arith)) refl;
      started = refl;
      words = sent.words;
      cleared = sent.cleared;
      kept = λ m le. sent.kept m (omega arith) le;
    }

-- The loader is called with a file of lines of 32 digits, anything behind them, and 16 bytes for each
-- line; all devices open, the lines fit the memory, two bytes behind `line` hold nothing else and no
-- hexadecimal digit stands behind `val`. Then RSD is started with the lines in its memory, the rest of
-- the mapped memory 0 and the memory above as it was.
pub load-IsLoaded :
    (a : Arguments) (f : Frame) (d : Device) (ls : List Chars) (rest : Chars)
    → All IsLine ls
    → IsCall a (16 * length ls) (file_of ls ++ rest)
    → Opens a
    → IsFrame f
    → 4 * length ls ≤ ram_size / 4
    → IsLoaded ls d (load a f d)
unfolding after_reading
load-IsLoaded a f d ls rest h c o i room =
    let n = length ls in
    let twice : 16 * n * 2 ≡ 32 * n = omega arith in
    let prog = uninitialised (16 * n * 2 + 3) 0 f.prog in
    let (more, read) =
      read_file-lines f.slack ls rest f.line prog h (omega (arith, c.positive)) i.slack i.line
        (omega (arith, length-uninitialised (16 * n * 2 + 3) 0 f.prog)) in
    let runs : load a f d ≡ transfer f (32 * n) (concat ls ++ more) d =
      load_reads a f d (16 * n) (file_of ls ++ rest) c
      ∙ ap
          (λ t.
            read_file f.slack t f.line prog (file_of ls ++ rest)
            >>= after_reading a f (16 * n * 2) d)
          (omega arith)
      ∙ ap (λ t. t >>= after_reading a f (16 * n * 2) d) read
      ∙ opened a f (16 * n * 2) (concat ls ++ more) d o
      ∙ ap (λ t. transfer f t (concat ls ++ more) d) twice in
    subst (IsLoaded ls d) (sym runs) (transfer-IsLoaded f ls more d h room i)

-- The file has fewer lines than the size that the loader is called with: it returns -1 and leaves
-- the devices as they were, whatever these are, if two bytes behind `line` hold nothing else.
pub load-mismatch :
    (a : Arguments) (f : Frame) (d : Device) (ls : List Chars) (size : ℕ)
    → All IsLine ls
    → IsCall a size (file_of ls)
    → length ls < size / 16
    → IsFrame f
    → load a f d ≡ some (returned minus_one d)
unfolding after_reading
load-mismatch a f d ls size h c short i =
    let prog = uninitialised (size * 2 + 3) 0 f.prog in
    load_reads a f d size (file_of ls) c
    ∙ ap (λ t. t >>= after_reading a f (size * 2) d)
        (read_file-short f.slack (size / 16) ls f.line prog h short i.slack i.line
          (omega (arith, length-uninitialised (size * 2 + 3) 0 f.prog)))

-- By the standard no byte behind `line` is free for `fgets`. Then a file that begins with a line of 32
-- digits, which every file the loader is meant for does, is undefined behaviour.
pub load-overflow :
    (a : Arguments) (f : Frame) (d : Device) (l rest : Chars) (size : ℕ)
    → IsLine l
    → IsCall a size (with_end l ++ rest)
    → f.slack ≡ 0
    → load a f d ≡ none
load-overflow a f d l rest size h c e =
    let prog = uninitialised (size * 2 + 3) 0 f.prog in
    load_reads a f d size (with_end l ++ rest) c
    ∙ ap
        (λ t.
          read_file t (size / 16) f.line prog (with_end l ++ rest)
          >>= after_reading a f (size * 2) d)
        e
    ∙ ap (λ t. t >>= after_reading a f (size * 2) d)
        (read_file-overflow (size / 16) l rest f.line prog h)
