-- ===== src/TestBench/Main.antt =====
-- TestMain.cpp, `main` from its arguments to its end: it parses its arguments, opens the dumpers,
-- loads the main memory, runs the loop of the simulation, and prints and saves the results. Of the
-- trace of Verilator the times of its dumps are kept; the messages of dumpers that cannot open their
-- file are left out.
pub mod Laws
pub mod Saved
use rsd_mp.Common.{
  ℕ, zero, suc, ◌+◌, ◌-◌, ◌%◌, ◌^◌, List, [], ◌∷◌, ◌++◌, Bool, true, false, Option, none, some,
  if◌then◌else◌, ◌==◌, ◌>>=◌,
}
use rsd_mp.Common.Text.{Chars, codes}
use rsd_mp.Common.Int.{ℤ, pos, negsuc}
use rsd_mp.Common.Format.{dec, hex}
use rsd_mp.Common.Memory.{Memory}
use rsd_mp.VerilatorHelper.Register.{DebugRegister, PerfCounterPath}
use rsd_mp.Dumper.Serial.{SerialDumper, new_serial, open_serial}
use rsd_mp.Dumper.Kanata.{KanataDumper, new_dumper, open_dumper}
use rsd_mp.Dumper.RegisterCsv.{RegisterFileCsvDumper, new_csv_dumper, open_csv_dumper}
use rsd_mp.Dumper.RegisterFile.{
  RegisterFileHexDumper, new_hex_dumper, open_hex_dumper, dump_registers,
}
use rsd_mp.TestBench.Arguments.{Parameters, defaults, Parsed, parse_arguments, same}
use rsd_mp.TestBench.HexFile.{
  Load, loaded, exit, out_of_range, load_hex_file, fill_dummy, message_end,
}
use rsd_mp.TestBench.Registers.{get_committed_register_value}
use rsd_mp.TestBench.Simulation.{
  CommitPort, Options, Outputs, Bench, Step, running, finished, fault, initial, simulate,
}

-- What `main` meets: the files that it can read, whether a file can be opened for writing, the size
-- and the first content of the main memory, the simulated core with a main memory, as what the `eval`
-- before the loop and those of its rounds leave, and the text `%f` of a quotient of two numbers.
pub record World : Type 0 where
  pub code : Chars → Option (List Chars)
  pub opens : Chars → Bool
  pub memory_words : ℕ
  pub memory : Memory
  pub pc_goal : ℕ
  pub cleared : DebugRegister
  pub first : Memory → Outputs
  pub rounds : Memory → List Outputs
  pub quotient : ℕ → ℤ → Chars

-- The state at the end of the loop, before the dumpers close their files; the lines that were
-- printed; the lines of `reg.out.hex`.
pub record Report : Type 0 where
  pub bench : Bench
  pub printed : List Chars
  pub reg_out : List Chars

-- `main` returns 0, calls `exit(1)`, is left by an exception, has no defined behaviour, or is in its
-- loop when the rounds end that the world gives.
pub data Run : Type 0 where
  returned : Report → Run
  exits : Run
  aborted : Run
  undefined : Run
  going_on : Bench → Run

unfoldable pub in_test_code : Chars → Parameters → Chars
in_test_code name p = p.test_code ++ (codes "/" ++ name)

unfoldable pub code_file_name : Parameters → Chars
unfolding in_test_code
code_file_name = in_test_code (codes "code.hex")

unfoldable pub reg_out_file_name : Parameters → Chars
unfolding in_test_code
reg_out_file_name = in_test_code (codes "reg.out.hex")

unfoldable pub serial_dump_file_name : Parameters → Chars
unfolding in_test_code
serial_dump_file_name = in_test_code (codes "serial.out.txt")

-- A name that is not empty.
unfoldable pub given : Chars → Bool
given [] = false
given (c ∷ cs) = true

unfoldable pub cycles_of : ℤ → ℕ
cycles_of (pos n) = n
cycles_of (negsuc n) = 0

unfoldable pub options : World → Parameters → Options
unfolding given cycles_of
options w p = record {
  max_test_cycles = cycles_of p.max_test_cycles;
  enable_pc_goal = p.enable_pc_goal;
  show_serial_out = p.show_serial_out;
  enable_dump_kanata = given p.rsd_log_file;
  enable_dump_reg_csv = given p.reg_csv_file;
  pc_goal = w.pc_goal;
}

unfoldable pub initial_kanata : World → Parameters → Option KanataDumper
unfolding given
initial_kanata w p =
    if given p.rsd_log_file
    then open_dumper (w.opens p.rsd_log_file) new_dumper
    else some new_dumper

unfoldable pub initial_csv : World → Parameters → RegisterFileCsvDumper
unfolding given
initial_csv w p =
    if given p.reg_csv_file
    then open_csv_dumper (w.opens p.reg_csv_file) new_csv_dumper
    else new_csv_dumper

-- `tfp` after the `eval` before the loop, when `main_time` is 0.
unfoldable pub initial_trace : Parameters → Option (List ℕ)
unfolding given
initial_trace p = if given p.wave_log_file then some (0 ∷ []) else none

unfoldable pub initial_serial : World → Parameters → SerialDumper
unfolding serial_dump_file_name
initial_serial w p = open_serial (w.opens (serial_dump_file_name p)) (new_serial p.show_serial_out)

unfoldable pub loaded_message : Chars → ℕ → Chars
loaded_message name word_addr =
    codes "Loaded "
    ++ (name
        ++ (codes " into a physical memory region ["
            ++ (hex 0 ++ (codes "-" ++ (hex (message_end 0 word_addr) ++ codes "].\n")))))

-- The ports that commit, up to the first one that does not.
unfoldable pub commit_num : List CommitPort → ℕ
commit_num [] = 0
commit_num (port ∷ ports) = let rest = commit_num ports in if port.commit then suc rest else 0

abbrev labelled : Chars → Chars → Chars
labelled label value = label ++ (codes ": " ++ (value ++ codes "\n"))

-- `cycle` as an `int64_t`.
unfoldable pub cycle_of : ℕ → ℤ
cycle_of zero = negsuc 0
cycle_of (suc n) = pos n

unfoldable pub counter_lines : PerfCounterPath → List Chars
counter_lines c =
    labelled (codes "Num of I$ misses") (dec c.num_ic_miss)
    ∷ labelled (codes "Num of D$ load misses") (dec c.num_load_miss)
    ∷ labelled (codes "Num of D$ store misses") (dec c.num_store_miss)
    ∷ labelled (codes "Num of branch prediction misses") (dec c.num_branch_pred_miss)
    ∷ labelled (codes "Num of branch prediction misses detected on decode")
        (dec c.num_branch_pred_miss_detected_on_decode)
    ∷ labelled (codes "Num of store-load-forwanind misses") (dec c.num_store_load_forwarding_fail)
    ∷ labelled (codes "Num of memory dependency prediction misses") (dec c.num_mem_dep_pred_miss)
    ∷ []

unfoldable pub result_lines : World → Bench → List Chars
unfolding counter_lines cycle_of
result_lines w s =
    counter_lines s.debug_register.perf_counter
    ++ (labelled (codes "Num of committed RISC-V-ops") (dec s.committed_ops)
        ∷ labelled (codes "Num of committed micro-ops") (dec s.committed_micro_ops)
        ∷ ((if s.cycles == 1
              then []
              else labelled (codes "IPC (RISC-V instruction)")
                  (w.quotient s.committed_ops (cycle_of s.cycles))
                ∷ labelled (codes "IPC (micro-op)")
                    (w.quotient s.committed_micro_ops (cycle_of s.cycles))
                ∷ [])
            ++ (labelled (codes "Elapsed cycles") (dec ((s.cycles + 2 ^ 32 - 1) % 2 ^ 32)) ∷ [])))

-- The registers after the operations that the last cycle commits.
unfoldable pub dump_final : World → Parameters → Bench → Option RegisterFileHexDumper
unfolding commit_num reg_out_file_name
dump_final w p s = do
  regs ← get_committed_register_value s.seen.core (commit_num s.seen.commit_ports) s.seen.garbage
  dump_registers s.last_committed_pc regs
      (open_hex_dumper (w.opens (reg_out_file_name p)) new_hex_dumper)

after_final : World → List Chars → Bench → Option RegisterFileHexDumper → Run
unfolding result_lines
after_final w printed s none = undefined
after_final w printed s (some d) = elim d.file [
  | none ↦ undefined
  | some lines ↦
      returned (record {
        bench = s;
        printed = printed ++ (s.messages ++ result_lines w s);
        reg_out = lines;
      })
]

unfoldable pub finish : World → Parameters → List Chars → Step → Run
unfolding dump_final after_final
finish w p printed (running s) = going_on s
finish w p printed (finished s) = after_final w printed s (dump_final w p s)
finish w p printed fault = undefined

unfoldable pub after_load : World → Parsed → KanataDumper → Load → Run
unfolding finish options initial_serial initial_csv initial_trace loaded_message code_file_name
after_load w s k (loaded mem word_addr) =
    finish w s.parameters
      (s.messages ++ loaded_message (code_file_name s.parameters) word_addr ∷ [])
      (simulate (options w s.parameters) (w.rounds mem) (
        initial w.cleared (initial_serial w s.parameters) k (initial_csv w s.parameters)
          (w.first mem) (initial_trace s.parameters)))
after_load w s k exit = exits
after_load w s k out_of_range = aborted

unfoldable pub after_open : World → Parsed → Option KanataDumper → Run
unfolding after_load
after_open w s none = undefined
after_open w s (some k) = after_load w s k (
    load_hex_file w.memory_words (w.code (code_file_name s.parameters)) 0 true
      (fill_dummy w.memory_words 0 w.memory))

unfoldable pub after_parsing : World → Option Parsed → Run
unfolding after_open initial_kanata
after_parsing w none = aborted
after_parsing w (some s) = after_open w s (initial_kanata w s.parameters)

-- `main`, with the arguments behind the name of the program.
unfoldable pub main : World → List Chars → Run
unfolding after_parsing
main w args =
    after_parsing w (parse_arguments args (record { parameters = defaults; messages = [] }))
