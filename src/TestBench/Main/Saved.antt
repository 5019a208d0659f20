-- ===== src/TestBench/Main/Saved.antt =====
-- TestMain.cpp, `main`: what the file of the registers holds at the end.
use rsd_mp.Common.{
  ℕ, zero, suc, ◌+◌, ◌<◌, ◌≤◌, List, [], ◌∷◌, ◌++◌, map, true, Option, none, some, ◌≡◌, refl, ap,
  ap₂, ◌∙◌, All, All-append, length, length-append, get_elem?, take, drop, subst, ◌>>=◌,
}
use rsd_mp.Common.Text.{Chars, strtoul16}
use rsd_mp.Common.Memory.{Memory}
use rsd_mp.Dumper.Kanata.{KanataDumper}
use rsd_mp.Dumper.RegisterFile.Laws.{IsWord, strtoul16-dump_registers}
use rsd_mp.TestBench.Arguments.{Parameters, defaults, Parsed, parse_arguments}
use rsd_mp.TestBench.HexFile.{loaded, load_hex_file, fill_dummy}
use rsd_mp.TestBench.Registers.{
  Core, copy_rmt, update_rmt, read_registers, lreg_num, get_committed_register_value,
}
use rsd_mp.TestBench.Registers.Laws.{register_after, get_committed_register_value_lem}
use rsd_mp.TestBench.Simulation.{Bench, finished, initial, simulate}
use rsd_mp.TestBench.Main.{
  World, Report, returned, options, initial_kanata, initial_csv, initial_serial, initial_trace,
  code_file_name, reg_out_file_name, commit_num, dump_final, after_final, finish, after_load,
  after_open, after_parsing, main, result_lines, loaded_message,
}

length-read_registers :
    (left i : ℕ) (file p : Memory) → length (read_registers left i file p) ≡ left
unfolding read_registers
length-read_registers zero i file p = refl
length-read_registers (suc left) i file p = ap suc (length-read_registers left (suc i) file p)

read_registers-IsWord :
    (left i : ℕ) (file p : Memory)
    → ((a : ℕ) → IsWord (file a))
    → All IsWord (read_registers left i file p)
unfolding read_registers
read_registers-IsWord zero i file p h = tt
read_registers-IsWord (suc left) i file p h = (h (p i), read_registers-IsWord left (suc i) file p h)

-- The physical registers have 32 bits.
abbrev pub IsCore : Core → Type 0
IsCore c = ((a : ℕ) → IsWord (c.phy_reg a)) × ((a : ℕ) → IsWord (c.phy_fp_reg a))

abbrev IsFull : Option (List ℕ) → Type 0
IsFull none = Unit
IsFull (some regs) = (length regs ≡ 64) × All IsWord regs

get_committed_register_value-IsFull :
    (c : Core) (n : ℕ) (garbage : Memory)
    → IsCore c
    → IsFull (get_committed_register_value c n garbage)
unfolding get_committed_register_value
get_committed_register_value-IsFull c n garbage (s, f) =
    full (update_rmt c n c.head_ptr (copy_rmt lreg_num 0 c.rmt garbage))
  where
    full :
        (o : Option Memory)
        → IsFull (
            o >>= (λ p.
              some (read_registers 32 0 c.phy_reg p ++ read_registers 32 32 c.phy_fp_reg p)))
    full none = tt
    full (some p) = (
      length-append (read_registers 32 0 c.phy_reg p) (read_registers 32 32 c.phy_fp_reg p)
          ∙ ap₂ ◌+◌ (length-read_registers 32 0 c.phy_reg p)
              (length-read_registers 32 32 c.phy_fp_reg p),
      All-append IsWord (read_registers 32 0 c.phy_reg p) (read_registers 32 32 c.phy_fp_reg p)
          (read_registers-IsWord 32 0 c.phy_reg p s) (read_registers-IsWord 32 32 c.phy_fp_reg p f),
    )

-- The file has the 32 integer registers, the PC and the 32 floating-point registers, as `strtoul`
-- with base 16 reads them; each register has the value after the operations that the last cycle
-- commits.
pub record IsSaved (s : Bench) (lines : List Chars) : Type 0 where
  pub regs : List ℕ
  pub values : map (strtoul16 32) lines ≡ take 32 regs ++ (s.last_committed_pc ∷ drop 32 regs)
  pub scalars :
      (i : ℕ)
      → i < 32
      → get_elem? regs i
        ≡ some (s.seen.core.phy_reg (register_after s.seen.core (commit_num s.seen.commit_ports) i))
  pub fps :
      (i : ℕ)
      → i < 32
      → get_elem? regs (32 + i)
        ≡ some (
            s.seen.core.phy_fp_reg
              (register_after s.seen.core (commit_num s.seen.commit_ports) (32 + i)))

-- The operations that the last cycle commits do not reach behind the end of the active list.
abbrev pub IsInList : Bench → Type 0
IsInList s = s.seen.core.head_ptr + commit_num s.seen.commit_ports ≤ length s.seen.core.active_list

dump_final-IsSaved :
    (w : World) (p : Parameters) (s : Bench)
    → IsInList s
    → IsCore s.seen.core
    → IsWord s.last_committed_pc
    → w.opens (reg_out_file_name p) ≡ true
    → (lines : List Chars) × (dump_final w p s ≡ some (record { file = some lines }))
      × IsSaved s lines
unfolding dump_final
dump_final-IsSaved w p s h core pc can =
    let c = s.seen.core in
    let n = commit_num s.seen.commit_ports in
    let (regs, e, scalars, fps) = get_committed_register_value_lem c n s.seen.garbage h in
    let (len, words) =
      subst IsFull e (get_committed_register_value-IsFull c n s.seen.garbage core) in
    let (lines, saved, values) = strtoul16-dump_registers s.last_committed_pc regs pc words len in
    (
      lines,
      rw (e, can) saved,
      record { regs = regs; values = values; scalars = scalars; fps = fps },
    )

-- The arguments are parsed, the Kanata log can be opened if there is one, `code.hex` is loaded and the
-- loop ends. If then the operations that the last cycle commits lie within the active list, the core
-- has words of 32 bits and `reg.out.hex` can be opened, `main` returns with the state at the end of
-- the loop, and the file has the registers after these operations.
pub main-IsSaved :
    (w : World) (args : List Chars) (s : Parsed) (k : KanataDumper) (mem : Memory) (a : ℕ)
    (b : Bench)
    → parse_arguments args (record { parameters = defaults; messages = [] }) ≡ some s
    → initial_kanata w s.parameters ≡ some k
    → load_hex_file w.memory_words
        (w.code (code_file_name s.parameters))
        0
        true
        (fill_dummy w.memory_words 0 w.memory)
      ≡ loaded mem a
    → simulate (options w s.parameters) (w.rounds mem) (
        initial w.cleared
          (initial_serial w s.parameters)
          k
          (initial_csv w s.parameters)
          (w.first mem)
          (initial_trace s.parameters))
      ≡ finished b
    → IsInList b
    → IsCore b.seen.core
    → IsWord b.last_committed_pc
    → w.opens (reg_out_file_name s.parameters) ≡ true
    → (r : Report) × (main w args ≡ returned r) × (r.bench ≡ b) × IsSaved b r.reg_out
unfolding main after_parsing after_open after_load finish after_final
main-IsSaved w args s k mem a b parsed opened read ends h core pc can =
    let (lines, e, saved) = dump_final-IsSaved w s.parameters b h core pc can in
    let printed = s.messages ++ loaded_message (code_file_name s.parameters) a ∷ [] in
    let report : Report = record {
      bench = b;
      printed = printed ++ (b.messages ++ result_lines w b);
      reg_out = lines;
    } in
    (report, rw (parsed, opened, read, ends, e) refl, refl, saved)
