-- ===== src/Examples/Loaders.antt =====
-- The theorems on the loaders at concrete inputs.
use rsd_mp.Common.{
  ℕ, ◌+◌, ◌-◌, ◌*◌, ◌%◌, ◌^◌, ◌<◌, ◌≤◌, List, [], ◌∷◌, ◌++◌, map, true, false, none, some, ◌≡◌, ◌≢◌,
  refl, arith, All, concat, get_elem?, ◌⊎◌,
}
use Prim.Native.String.{String}
use rsd_mp.Common.Text.{Chars, codes, hex_value?, scan_hex, IsHex}
use rsd_mp.Common.Memory.{Memory}
use rsd_mp.RsdLoader.{Symbols, load}
use rsd_mp.RsdLoader.Laws.{IsLinked, load_lem}
use rsd_mp.ProgramLoader.{Cursor, send_program, transfer_loop}
use rsd_mp.ProgramLoader.Word.{Word, chars, at_word, word_value}
use rsd_mp.ProgramLoader.Line.{IsLine, line_value}
use rsd_mp.ProgramLoader.Transfer.{IsSent, send_program-IsSent, transfer_loop_digit_behind}
use rsd_mp.TestBench.HexFile.{loaded, load_hex_file}
use rsd_mp.TestBench.HexFile.Laws.{IsLoaded, load_hex_file-IsLoaded, load_hex_file-send_program}
use rsd_mp.RunSimple.{Board, start}
use rsd_mp.RunSimple.Image.{program_lines}
use rsd_mp.RunSimple.Image.Laws.{all_lines, all_lines-AreLines, map-AreLines}
use rsd_mp.RunSimple.Start.{start-program}
use rsd_mp.RunSimple.Polling.{}
use rsd_mp.VerilatorHelper.Stage.{}
use rsd_mp.TestBench.Registers.Laws.{}

abbrev addresses : Memory
addresses a = a % 256

abbrev two_strings : List String
two_strings = "00000000000000000000000000000000" ∷ "0123456789abcdefFEDCBA9876543210" ∷ []

abbrev pub two_lines : List Chars
two_lines = map codes two_strings

pub two_lines-IsLine : All IsLine two_lines
two_lines-IsLine =
    map-AreLines two_strings (all_lines-AreLines two_strings (unfold all_lines hex_value? in refl))

abbrev pub zeros : Memory
zeros a = 0

abbrev pub garbage : Chars
garbage = codes "????????"

-- The character that stands behind `val` in these examples.
abbrev pub behind : Chars
behind = 0 ∷ []

pub ends : hex_value? 0 ≡ none
unfolding hex_value?
ends = refl

load_hex_file-send_program_example :
    (out : Memory) × (end : ℕ) × (s : Cursor) × (load_hex_file 64 (some two_lines) 0 true zeros
      ≡ loaded out end)
    × (send_program garbage behind 16 64 (concat two_lines ++ []) zeros ≡ some s)
    × ((a : ℕ) → a < 8 → out a ≡ s.mem a)
load_hex_file-send_program_example =
    load_hex_file-send_program 64 16 two_lines garbage behind zeros zeros two_lines-IsLine refl ends
      (omega arith)

send_program-IsSent_example :
    IsSent two_lines 16 zeros
      (send_program garbage behind 16 64 (concat two_lines ++ codes "end") zeros)
send_program-IsSent_example =
    send_program-IsSent two_lines garbage behind (codes "end") 16 zeros two_lines-IsLine refl ends

abbrev board : Board
board = record { done = 1; mem = λ a. 3; seen = λ a. 4 }

start-program_example :
    (b' : Board) × (start garbage behind (λ m. m) board ≡ some b')
    × (b'.done ≡ 1)
    × ((n i : ℕ) (l : Chars)
        → get_elem? (map codes program_lines) n ≡ some l
        → i < 4
        → b'.seen (4 * n + i) ≡ line_value l i)
    × ((a : ℕ) → 16384 ≤ a → a < 65536 → b'.seen a ≡ 0)
start-program_example = start-program garbage behind (λ m. m) board refl ends (λ m a. refl)

load_hex_file-IsLoaded_example :
    IsLoaded two_lines 4 zeros (load_hex_file 64 (some two_lines) 16 false zeros)
load_hex_file-IsLoaded_example =
    load_hex_file-IsLoaded 64 16 two_lines false zeros two_lines-IsLine (omega arith)

abbrev symbols : Symbols
symbols = record {
  rodata_end = 0x3000;
  data_start = 0x80000000;
  data_end = 0x80000100;
  bss_start = 0x80000200;
  bss_end = 0x80000300;
}

symbols-IsLinked : IsLinked symbols
symbols-IsLinked = record {
  data_at_ram = refl;
  data_forward = omega arith;
  bss_forward = omega arith;
  apart = omega arith;
  image_in_rom = omega arith;
  in_space = omega arith;
}

load_lem_example :
    ((k : ℕ) → k < 256 → load symbols addresses (0x80000000 + k) ≡ (0x3000 + k) % 256)
    × ((a : ℕ) → 0x80000200 ≤ a → a < 0x80000300 → load symbols addresses a ≡ 0)
    × ((a : ℕ)
        → (a < 0x80000000) ⊎ ((0x80000100 ≤ a) × (a < 0x80000200)) ⊎ (0x80000300 ≤ a)
        → load symbols addresses a ≡ a % 256)
load_lem_example = load_lem symbols addresses symbols-IsLinked

abbrev one_word : Word
one_word = record {
  c0 = b'0';
  c1 = b'0';
  c2 = b'0';
  c3 = b'0';
  c4 = b'0';
  c5 = b'0';
  c6 = b'1';
  c7 = b'2';
}

one_word-IsHex : All IsHex (chars one_word)
unfolding hex_value?
one_word-IsHex = (
  (0, refl),
  ((0, refl), ((0, refl), ((0, refl), ((0, refl), ((0, refl), ((1, refl), ((2, refl), tt))))))),
)

seven : hex_value? b'7' ≡ some 7
unfolding hex_value?
seven = refl

one_word-bounds : (0 < word_value one_word) × (word_value one_word < 2 ^ 32 - 1)
unfolding word_value hex_value? scan_hex
one_word-bounds = (omega arith, omega arith)

transfer_loop_digit_behind_example :
    (s : Cursor) × (transfer_loop (b'7' ∷ []) 8 0 (chars one_word) (at_word one_word 3 0 addresses)
      ≡ some s)
    × (s.mem 3 ≢ word_value one_word)
transfer_loop_digit_behind_example =
    transfer_loop_digit_behind one_word one_word b'7' 7 [] [] 0 3 0 addresses one_word-IsHex seven
      one_word-bounds.0 one_word-bounds.1
