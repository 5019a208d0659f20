-- ===== src/Examples/Bench.antt =====
-- The theorems on the test bench and its logs at concrete inputs.
use rsd_mp.Common.{
  ℕ, ◌+◌, ◌%◌, ◌<◌, List, [], ◌∷◌, ◌++◌, map, true, false, none, some, ◌≡◌, refl, arith, All,
  get_elem?, take, replicate, length-replicate, drop, All-replicate, ◌==◌,
}
use rsd_mp.Common.Text.{Chars, codes, strtoul16}
use rsd_mp.Common.Memory.{Memory}
use rsd_mp.RunSimple.Polling.{}
use rsd_mp.VerilatorHelper.Register.{DebugRegister}
use rsd_mp.VerilatorHelper.Get.{get_debug_register}
use rsd_mp.VerilatorHelper.Laws.{get_debug_register-IsRead, ex_op_id_of_first}
use rsd_mp.VerilatorHelper.Laws.Read.{IsRead}
use rsd_mp.VerilatorHelper.Stage.{
  ComplexIntegerExecutionStageDebugRegister, FpIntegerExecutionStageDebugRegister,
}
use rsd_mp.Dumper.Kanata.Base.{format_loop, bin_to_str}
use rsd_mp.Dumper.Kanata.Helpers.{format_loop_lem, read_bin, read_bin-bin_to_str}
use rsd_mp.Dumper.Kanata.Complete.{IsCycleOf, stage_lines-IsCycleOf}
use rsd_mp.Dumper.Kanata.Log.{logged, run, cycles_from, dump_all-read_log}
use rsd_mp.Dumper.Kanata.{stage_lines}
use rsd_mp.Dumper.Serial.{check_signals, open_serial, new_serial}
use rsd_mp.Dumper.Serial.Laws.{sent, non_zero, check_signals_lem}
use rsd_mp.TestBench.Registers.{Core}
use rsd_mp.TestBench.Registers.{get_committed_register_value}
use rsd_mp.TestBench.Registers.Laws.{
  register_after, get_committed_register_value_lem, get_committed_register_value-none,
}
use rsd_mp.Dumper.RegisterFile.{dump_registers, open_hex_dumper, new_hex_dumper}
use rsd_mp.Dumper.RegisterFile.Laws.{IsWord, strtoul16-dump_registers}
use rsd_mp.TestBench.Simulation.{Options, simulate, initial}
use rsd_mp.TestBench.Simulation as Simulation
use rsd_mp.TestBench.Simulation.Laws.{IsStep, simulate-IsStep}
use rsd_mp.TestBench.Simulation.Traced.{IsTraced}
use rsd_mp.TestBench.Simulation.End.{IsRunning, simulate-ends}
use rsd_mp.Dumper.Kanata.{new_dumper}
use rsd_mp.Dumper.RegisterCsv.{new_csv_dumper}
use rsd_mp.Examples.Registers.{registers}
use rsd_mp.Examples.StagesA.{one_complex_integer_execution_stage}
use rsd_mp.Examples.StagesB.{one_fp_integer_execution_stage}
use rsd_mp.Examples.Outputs.{core}

abbrev pub zeros : Memory
zeros a = 0

get_debug_register-IsRead_example : IsRead core registers (get_debug_register core registers)
get_debug_register-IsRead_example = get_debug_register-IsRead core registers

dump_all-read_log_example :
    logged (run (registers ∷ registers ∷ [])) ≡ some (cycles_from 0 (registers ∷ registers ∷ []))
dump_all-read_log_example = dump_all-read_log (registers ∷ registers ∷ [])

stage_lines-IsCycleOf_example : IsCycleOf registers (stage_lines registers)
stage_lines-IsCycleOf_example = stage_lines-IsCycleOf registers

read_bin-bin_to_str_example : read_bin (bin_to_str 5 4 false) 0 ≡ 5
read_bin-bin_to_str_example = read_bin-bin_to_str 5 4 false (omega arith)

format_loop_lem_example : format_loop 11 2 (some (codes "0123456789")) ≡ some (codes "0123456789")
format_loop_lem_example = format_loop_lem 10 2 (codes "0123456789") (omega arith) (omega arith)

check_signals_lem_example :
    check_signals ((true, 65) ∷ (true, 256) ∷ (false, 66) ∷ []) (open_serial true (new_serial true))
    ≡ record {
      file = some (non_zero (sent ((true, 65) ∷ (true, 256) ∷ (false, 66) ∷ [])));
      out_to_stdout = true;
      stdout = sent ((true, 65) ∷ (true, 256) ∷ (false, 66) ∷ []);
    }
check_signals_lem_example = check_signals_lem ((true, 65) ∷ (true, 256) ∷ (false, 66) ∷ []) true

-- Two entries of the stages whose index is not stepped.
abbrev wide : DebugRegister
wide = record registers {
  complex_ex_reg = one_complex_integer_execution_stage ∷ one_complex_integer_execution_stage ∷ [];
  fp_ex_reg = one_fp_integer_execution_stage ∷ one_fp_integer_execution_stage ∷ [];
}

ex_op_id_of_first_example :
    ((s' : ComplexIntegerExecutionStageDebugRegister) × (get_elem?
          (get_debug_register core wide).complex_ex_reg
          1
        ≡ some s')
      × (get_elem? s'.op_id 0
          ≡ some (record {
            sid = core.op_id_sid (core.complex_ex_reg_op_id 0);
            mid = core.op_id_mid (core.complex_ex_reg_op_id 0);
          })))
    × ((t' : FpIntegerExecutionStageDebugRegister) × (get_elem?
            (get_debug_register core wide).fp_ex_reg
            1
          ≡ some t')
        × (get_elem? t'.op_id 0
            ≡ some (record {
              sid = core.op_id_sid (core.fp_ex_reg_op_id 0);
              mid = core.op_id_mid (core.fp_ex_reg_op_id 0);
            })))
ex_op_id_of_first_example =
    ex_op_id_of_first core wide 1 one_complex_integer_execution_stage one_fp_integer_execution_stage
      refl (omega arith) refl (omega arith)

-- A core with an active list of four entries: entry `e` writes logical register `e` with the physical
-- register `e + 40`, and an even one writes nothing.
abbrev pub committing : Core
committing = record {
  rmt = λ i. i;
  head_ptr = 1;
  active_list = 2 ∷ 3 ∷ 4 ∷ 5 ∷ [];
  phy_reg = λ i. 100 + i;
  phy_fp_reg = λ i. 200 + i;
  write_reg = λ e. e % 2 == 1;
  log_dst_reg_num = λ e. e;
  phy_dst_reg_num = λ e. e + 40;
}

get_committed_register_value_lem_example :
    (regs : List ℕ) × (get_committed_register_value committing 2 zeros ≡ some regs)
    × ((i : ℕ) → i < 32 → get_elem? regs i ≡ some (100 + register_after committing 2 i))
    × ((i : ℕ)
        → i < 32
        → get_elem? regs (32 + i) ≡ some (200 + register_after committing 2 (32 + i)))
get_committed_register_value_lem_example =
    get_committed_register_value_lem committing 2 zeros (omega arith)

get_committed_register_value-none_example : get_committed_register_value committing 4 zeros ≡ none
get_committed_register_value-none_example =
    get_committed_register_value-none committing 4 zeros (omega arith) (omega arith)

abbrev pub values : List ℕ
values = replicate 64 0xcafe

pub values-IsWord : All IsWord values
values-IsWord = All-replicate IsWord 64 0xcafe (omega arith)

strtoul16-dump_registers_example :
    (lines : List Chars) × (dump_registers 0x1000 values (open_hex_dumper true new_hex_dumper)
      ≡ some (record { file = some lines }))
    × (map (strtoul16 32) lines ≡ take 32 values ++ (0x1000 ∷ drop 32 values))
strtoul16-dump_registers_example =
    strtoul16-dump_registers 0x1000 values (omega arith) values-IsWord (length-replicate 64 0xcafe)

abbrev pub two_cycles : Options
two_cycles = record {
  max_test_cycles = 2;
  enable_pc_goal = true;
  show_serial_out = false;
  enable_dump_kanata = true;
  enable_dump_reg_csv = true;
  pc_goal = 0x1234;
}

abbrev pub working : Simulation.Outputs
working = record {
  got_finish = false;
  pos_reset_out = false;
  led_out = 0x1000;
  serial_we = true;
  serial_write_data = 65;
  registers = core;
  core = committing;
  commit_ports = record { commit = true; pc = 0x1000 } ∷ record { commit = false; pc = 0 } ∷ [];
  garbage = zeros;
}

abbrev traced : Simulation.Bench
traced = initial registers (new_serial true) new_dumper new_csv_dumper working (some (0 ∷ []))

simulate-IsStep_example :
    IsStep two_cycles (simulate two_cycles (replicate 6 working) traced)
    × IsTraced (replicate 6 working) traced (simulate two_cycles (replicate 6 working) traced)
simulate-IsStep_example =
    simulate-IsStep two_cycles (replicate 6 working) registers (new_serial true) new_dumper
      new_csv_dumper working (some (0 ∷ [])) (omega arith)

-- The core holds itself in reset at first.
abbrev pub held : List Simulation.Outputs
held = replicate 5 (record working { pos_reset_out = true })

simulate-ends_example : ¬ IsRunning (
    simulate two_cycles
      (held ++ replicate 6 working)
      (initial registers (new_serial true) new_dumper new_csv_dumper working none))
simulate-ends_example =
    simulate-ends two_cycles held (replicate 6 working)
      (initial registers (new_serial true) new_dumper new_csv_dumper working none)
      (All-replicate (λ (o : Simulation.Outputs). o.pos_reset_out ≡ false) 6 working refl)
      (omega (arith, length-replicate 6 working))
