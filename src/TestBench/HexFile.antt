-- ===== src/TestBench/HexFile.antt =====
-- TestMain.cpp, `loadHexFile`: the test bench fills the main memory with dummy data and then with
-- the words of a `code.hex` file. Memory is indexed by words of 32 bits, as `mainMem` is.
pub mod Laws
use rsd_mp.Common.{ℕ, zero, suc, ◌+◌, ◌-◌, ◌*◌, ◌/◌, ◌%◌, ◌^◌, List, [], ◌∷◌, Bool, true, false}
use rsd_mp.Common.{Option, none, some, leb, ltb, if◌then◌else◌, length, take, drop}
use rsd_mp.Common.Text.{Chars, strtoul16}
use rsd_mp.Common.Memory.{Memory, store}

-- How a load ends. `loaded` also has the word address behind the last line. `exit` is `exit(1)`
-- after a message, and `out_of_range` the exception of `substr`, which nothing catches.
pub data Load : Type 0 where
  loaded : Memory → ℕ → Load
  exit : Load
  out_of_range : Load

-- `for (int i = 0; i < mainMemWordSize; i++) mainMem[i] = 0xcdcdcdcd;` from `i` on.
pub fill_dummy : ℕ → ℕ → Memory → Memory
fill_dummy zero i mem = mem
fill_dummy (suc left) i mem = fill_dummy left (i + 1) (store mem i 0xcdcdcdcd)

-- `line.substr(pos, 8)`, which throws if `pos` is behind the end of the line.
pub substr : Chars → ℕ → Option Chars
substr line pos = if leb pos (length line) then some (take 8 (drop pos line)) else none

-- The inner loop from word `i` of a line on. `unsigned long` has 64 bits, and the value is cut to 32.
pub store_line : ℕ → ℕ → Chars → ℕ → Memory → Option Memory
unfolding substr
store_line zero i line word_addr mem = some mem
store_line (suc left) i line word_addr mem = elim (substr line ((3 - i) * 8)) [
  | none ↦ none
  | some word_str ↦
      store_line left (i + 1) line word_addr
        (store mem (word_addr + i) (strtoul16 64 word_str % 2 ^ 32))
]

-- The loop over the lines of the file; `size` is `mainMemWordSize`.
pub load_lines : ℕ → List Chars → ℕ → Memory → Load
unfolding store_line
load_lines size [] word_addr mem = loaded mem word_addr
load_lines size (line ∷ lines) word_addr mem = elim (leb size word_addr) [
  | true ↦ exit
  | false ↦ elim (store_line 4 0 line word_addr mem) [
    | none ↦ out_of_range
    | some mem' ↦ load_lines size lines (word_addr + 4) mem'
  ]
]

-- `none` is a file that cannot be opened. Without `necessary` it reads as a file with no line.
pub load_hex_file : ℕ → Option (List Chars) → ℕ → Bool → Memory → Load
unfolding load_lines
load_hex_file size none offset true mem = exit
load_hex_file size none offset false mem = load_lines size [] (offset / 4) mem
load_hex_file size (some lines) offset necessary mem = load_lines size lines (offset / 4) mem

-- The last address of the range that the message `Loaded … [%x-%x]` names.
pub message_end : ℕ → ℕ → ℕ
message_end offset word_addr = (offset + word_addr * 4 + 2 ^ 32 - 1) % 2 ^ 32
