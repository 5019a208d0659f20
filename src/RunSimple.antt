-- ===== src/RunSimple.antt =====
-- Processor/Project/Vivado/TargetBoards/Zedboard/project_src/run_simple.c: the program of the
-- processing system that loads RSD's main memory, starts RSD and shows its output.
pub mod Image
pub mod Start
pub mod Polling
use rsd_mp.Common.{
  ℕ, zero, suc, ◌+◌, ◌*◌, ◌%◌, ◌^◌, List, [], ◌∷◌, ◌++◌, Option, none, some, Bool, true, false,
}
use rsd_mp.Common.{◌==◌, if◌then◌else◌, ◌>>=◌}
use rsd_mp.Common.Text.{Chars}
use rsd_mp.Common.Memory.{Memory}
use rsd_mp.ProgramLoader.{
  Cursor, send_program, program_wordsize, memory_word_byte_size, program_charsize,
}
use rsd_mp.RunSimple.Image.{programinit}

-- `done` is the register `rsd_ps2pl[S2L_DONE_OFFSET]`, whose 0 holds RSD in reset; `mem` is the
-- memory as the processing system reads it, and `seen` as RSD does.
pub record Board : Type 0 where
  pub done : ℕ
  pub mem : Memory
  pub seen : Memory

-- From the reset to the start of RSD. The parameter `flush` is what the calls of
-- `Xil_L1DCacheFlush` and `Xil_L2CacheFlush` leave in the memory that RSD reads. `none` is a read
-- behind the end of `prog`.
pub start : Chars → Chars → (Memory → Memory) → Board → Option Board
start garbage behind flush b = do
  let held = record b { done = 0 }
  s ←
      send_program garbage behind (program_wordsize * memory_word_byte_size) program_charsize
        programinit held.mem
  let flushed = record held { mem = s.mem; seen = flush s.mem }
  some (record flushed { done = 1 })

-- What one round of the polling loop reads from the registers of RSD.
pub record Sample : Type 0 where
  pub empty : ℕ
  pub item : ℕ
  pub last_committed_pc : ℕ
  pub committed_insn_count : ℕ

-- What is printed: a character of RSD's output, or the line with the PC and the count.
pub data Output : Type 0 where
  char : ℕ → Output
  report : ℕ → ℕ → Output

pub record Poll : Type 0 where
  pub t : ℕ
  pub u : ℕ
  pub out : List Output

-- A round goes on or leaves the loop.
pub data Round : Type 0 where
  running : Poll → Round
  stopped : Poll → Round

abbrev pub report_period : ℕ
report_period = 10000000

abbrev pub report_limit : ℕ
report_limit = 10

-- The first test: `printf("%c", …)` prints the lowest byte.
pub show_item : Sample → List Output → List Output
show_item x out = if x.empty == 1 then out else out ++ char (x.item % 2 ^ 8) ∷ []

pub poll_step : Sample → Poll → Round
unfolding show_item
poll_step x p =
    let out = show_item x p.out in
    if p.t == report_period
    then (let out' = out ++ report x.last_committed_pc x.committed_insn_count ∷ [] in
        if p.u + 1 == report_limit
        then stopped (record { t = 0; u = p.u + 1; out = out' })
        else running (record { t = 0; u = p.u + 1; out = out' }))
    else running (record { t = p.t + 1; u = p.u; out = out })

-- The loop on the samples that its rounds read; samples after the end of the loop are not read.
pub poll_loop : List Sample → Poll → Round
unfolding poll_step
poll_loop [] p = running p
poll_loop (x ∷ xs) p = elim (poll_step x p) [
  | running p' ↦ poll_loop xs p'
  | stopped p' ↦ stopped p'
]
