-- ===== src/ProgramLoader.antt =====
-- The transfer of a program from the processing system of a Zynq board to the main memory of RSD:
-- Processor/Project/Vivado/TargetBoards/Zedboard/project_src/run_simple.c. Memory is indexed by AXI
-- words of 32 bits, as `mem` is.
pub mod Word
pub mod Line
pub mod Layout
pub mod Transfer
use rsd_mp.Common.{
  ℕ, zero, suc, ◌+◌, ◌-◌, ◌*◌, ◌/◌, ◌%◌, ◌^◌, List, [], ◌∷◌, ◌++◌, Option, none, some,
}
use rsd_mp.Common.{◌==◌, if◌then◌else◌, set}
use rsd_mp.Common.Text.{Chars, strtoul16}
use rsd_mp.Common.Memory.{Memory, store}

-- The words of the program, in entries of the memory.
abbrev pub program_wordsize : ℕ
program_wordsize = 65536 / 16

abbrev pub memory_word_byte_size : ℕ
memory_word_byte_size = 16

abbrev pub axi_word_byte_size : ℕ
axi_word_byte_size = 4

abbrev pub axi_word_char_size : ℕ
axi_word_char_size = axi_word_byte_size * 2

abbrev pub program_charsize : ℕ
program_charsize = program_wordsize * memory_word_byte_size * 2

-- The variables of the transfer loop but `j`, which counts the characters that were read, and
-- the memory `mem`. `val` is the array of `axi_word_char_size + 2` characters.
pub record Cursor : Type 0 where
  pub i : ℕ
  pub k : ℕ
  pub offset : ℕ
  pub val : Chars
  pub mem : Memory

-- One round: `rc` is the character read. `val` holds no end of text, so `strtoul` reads on into
-- `behind`, what stands in memory behind the array. `unsigned long` and `int` have 32 bits.
pub send : Chars → ℕ → Cursor → Cursor
send behind rc s =
    let val = set s.val s.i rc in
    if s.i == axi_word_char_size + 1
    then record {
      i = 2;
      k = if s.k == 0 then 3 else s.k - 1;
      offset = if s.k == 0 then s.offset + 4 else s.offset;
      val = val;
      mem = store s.mem (s.offset + s.k) (strtoul16 32 (val ++ behind) % 2 ^ 32);
    }
    else record s { i = s.i + 1; val = val }

-- The loop from character `j` on, with the characters of `prog` that are left. It ends when `j` is
-- the number of characters to send; a read behind the end of `prog` is `none`.
pub transfer_loop : Chars → ℕ → ℕ → Chars → Cursor → Option Cursor
unfolding send
transfer_loop behind charsize j [] s = if j == charsize then some s else none
transfer_loop behind charsize j (rc ∷ prog) s =
    let rest = transfer_loop behind charsize (j + 1) prog (send behind rc s) in
    if j == charsize then some s else rest

-- `for (t = 0; t < n; t++) mem[t] = 0;` from `t` on.
pub clear_loop : ℕ → ℕ → Memory → Memory
clear_loop zero t mem = mem
clear_loop (suc left) t mem = clear_loop left (t + 1) (store mem t 0)

-- Clearing and transfer. `garbage` is what `val[2]` and the characters after it hold at first.
pub send_program : Chars → Chars → ℕ → ℕ → Chars → Memory → Option Cursor
unfolding transfer_loop clear_loop
send_program garbage behind clear_words charsize prog mem =
    transfer_loop behind charsize 0 prog (record {
      i = 2;
      k = 3;
      offset = 0;
      val = b'0' ∷ b'x' ∷ garbage;
      mem = clear_loop clear_words 0 mem;
    })
