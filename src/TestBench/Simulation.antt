-- ===== src/TestBench/Simulation.antt =====
-- TestMain.cpp, `main`: the loop of the simulation.
pub mod Laws
pub mod Traced
pub mod End
pub mod Observed
use rsd_mp.Common.{
  ℕ, zero, suc, ◌+◌, ◌-◌, ◌%◌, ◌^◌, List, [], ◌∷◌, ◌++◌, Bool, true, false, not, ◌&&◌, ◌||◌, Option,
  none, some, ◌==◌, leb, ltb, if◌then◌else◌, ◌>>=◌,
}
use rsd_mp.Common.Int.{int_max}
use rsd_mp.VerilatorHelper.Accessors.{Accessors}
use rsd_mp.VerilatorHelper.Register.{DebugRegister}
use rsd_mp.VerilatorHelper.Stage.{CommitStageDebugRegister}
use rsd_mp.VerilatorHelper.Get.{get_debug_register}
use rsd_mp.Dumper.Serial.{SerialDumper, check_signal}
use rsd_mp.Dumper.Kanata.{KanataDumper, dump_cycle}
use rsd_mp.Dumper.RegisterCsv.{RegisterFileCsvDumper, proceed_csv_cycle, dump_csv}
use rsd_mp.Common.Text.{Chars, codes}
use rsd_mp.Common.Format.{dec, hex8}
use rsd_mp.Common.Memory.{Memory}
use rsd_mp.TestBench.Registers.{Core, get_committed_register_value}

-- `pc_goal` is PC_GOAL. A maximum of cycles below 0 acts as 0.
pub record Options : Type 0 where
  pub max_test_cycles : ℕ
  pub enable_pc_goal : Bool
  pub show_serial_out : Bool
  pub enable_dump_kanata : Bool
  pub enable_dump_reg_csv : Bool
  pub pc_goal : ℕ

-- A port of the commit stage: whether it commits an operation, and the PC of that.
pub record CommitPort : Type 0 where
  pub commit : Bool
  pub pc : ℕ

-- What a round sees of the simulated core: whether it has finished when the round begins, and its
-- outputs and its state after `eval`. `garbage` is what the local arrays of the function
-- `GetCommittedRegisterValue` hold at first.
pub record Outputs : Type 0 where
  pub got_finish : Bool
  pub pos_reset_out : Bool
  pub led_out : ℕ
  pub serial_we : Bool
  pub serial_write_data : ℕ
  pub registers : Accessors
  pub core : Core
  pub commit_ports : List CommitPort
  pub garbage : Memory

-- `cycles` is `cycle` plus one. `messages` are the lines that the loop prints itself,
-- and `seen` is what the last `eval` has left. `trace` holds the times that `tfp->dump` has been called
-- with, or is `none` if `tfp` is a null pointer.
pub record Bench : Type 0 where
  pub clk_p : Bool
  pub clk_n : Bool
  pub neg_reset_in : Bool
  pub start : Bool
  pub cycles : ℕ
  pub kanata_cycle : ℕ
  pub main_time : ℕ
  pub committed_ops : ℕ
  pub committed_micro_ops : ℕ
  pub last_committed_pc : ℕ
  pub debug_register : DebugRegister
  pub serial_dumper : SerialDumper
  pub kanata_dumper : KanataDumper
  pub csv_dumper : RegisterFileCsvDumper
  pub messages : List Chars
  pub seen : Outputs
  pub trace : Option (List ℕ)

-- A round goes on, leaves the loop, or has no defined behaviour: a write to the null file pointer of
-- a dumper, an overflow of a counter that is an `int`, or a read behind the end of the active list.
pub data Step : Type 0 where
  running : Bench → Step
  finished : Bench → Step
  fault : Step

abbrev pub rsd_step : ℕ
rsd_step = 8

abbrev pub rsd_initialization_cycle : ℕ
rsd_initialization_cycle = 8

-- The state before the loop, with the debug register that `memset` has cleared, the dumpers, what the
-- `eval` before the loop has left, and the trace after it.
unfoldable pub initial :
    DebugRegister
    → SerialDumper
    → KanataDumper
    → RegisterFileCsvDumper
    → Outputs
    → Option (List ℕ)
    → Bench
initial cleared serial kanata csv first trace = record {
  clk_p = false;
  clk_n = true;
  neg_reset_in = false;
  start = false;
  cycles = 0;
  kanata_cycle = 0;
  main_time = 16;
  committed_ops = 0;
  committed_micro_ops = 0;
  last_committed_pc = 0;
  debug_register = cleared;
  serial_dumper = serial;
  kanata_dumper = kanata;
  csv_dumper = csv;
  messages = [];
  seen = first;
  trace = trace;
}

-- The operations that are committed, and those of them that are the first of an instruction.
unfoldable pub micro_ops : List CommitStageDebugRegister → ℕ
micro_ops [] = 0
micro_ops (x ∷ xs) = let rest = micro_ops xs in if x.commit then suc rest else rest

unfoldable pub first_ops : List CommitStageDebugRegister → ℕ
first_ops [] = 0
first_ops (x ∷ xs) =
    let rest = first_ops xs in if x.commit && x.op_id.mid == 0 then suc rest else rest

unfoldable pub dump_kanata : Bool → DebugRegister → KanataDumper → Option KanataDumper
dump_kanata true r k = dump_cycle r k
dump_kanata false r k = some k

-- The registers before the commit of port `i`.
unfoldable pub dump_commit :
    Outputs → ℕ → CommitPort → RegisterFileCsvDumper → Option RegisterFileCsvDumper
dump_commit o i port d =
    if port.commit
    then (get_committed_register_value o.core i o.garbage >>= (λ regs. dump_csv port.pc regs d))
    else some d

-- The ports from port `i` on.
unfoldable pub dump_commits :
    Outputs → ℕ → List CommitPort → RegisterFileCsvDumper → Option RegisterFileCsvDumper
unfolding dump_commit
dump_commits o i [] d = some d
dump_commits o i (port ∷ ports) d = dump_commit o i port d >>= dump_commits o (suc i) ports

unfoldable pub dump_reg_csv : Bool → Outputs → RegisterFileCsvDumper → Option RegisterFileCsvDumper
unfolding dump_commits
dump_reg_csv true o d = proceed_csv_cycle d >>= dump_commits o 0 o.commit_ports
dump_reg_csv false o d = some d

-- The line on the progress of the simulation, for `cycle` and `kanataCycle` at the rising edge.
unfoldable pub progress : Options → ℕ → ℕ → ℕ → List Chars
progress p cycle kanata time =
    if not p.show_serial_out && (ltb kanata 10000 || kanata % 10000 == 0)
    then (dec (cycle % 2 ^ 32)
        ++ (codes " cycle, "
            ++ (dec (kanata % 2 ^ 32) ++ (codes " KanataCycle, " ++ (dec time ++ codes " ns\n")))))
      ∷ []
    else []

-- What a round does on a rising edge once the core has started: with the debug register `r` and the
-- dumpers after their lines.
unfoldable pub count_ops :
    Options → Outputs → DebugRegister → Bench → KanataDumper → RegisterFileCsvDumper → Option Bench
unfolding progress
count_ops p o r s k d =
    let micro = s.committed_micro_ops + micro_ops r.cm_reg in
    let ops = s.committed_ops + first_ops r.cm_reg in
    if leb micro int_max && leb ops int_max
    then some (record s {
      kanata_cycle = suc s.kanata_cycle;
      cycles = suc s.cycles;
      debug_register = r;
      serial_dumper = check_signal o.serial_we o.serial_write_data s.serial_dumper;
      kanata_dumper = k;
      csv_dumper = d;
      messages = s.messages ++ progress p s.cycles (suc s.kanata_cycle) s.main_time;
      committed_micro_ops = micro;
      committed_ops = ops;
      last_committed_pc = if p.enable_pc_goal then o.led_out else s.last_committed_pc;
    })
    else none

unfoldable pub after_csv :
    Options
    → Outputs
    → DebugRegister
    → Bench
    → KanataDumper
    → Option RegisterFileCsvDumper
    → Option Bench
after_csv p o r s k none = none
after_csv p o r s k (some d) = count_ops p o r s k d

unfoldable pub after_dump :
    Options → Outputs → DebugRegister → Bench → Option KanataDumper → Option Bench
unfolding after_csv
after_dump p o r s none = none
after_dump p o r s (some k) =
    after_csv p o r s k (dump_reg_csv p.enable_dump_reg_csv o s.csv_dumper)

unfoldable pub clocked : Options → Outputs → Bench → Option Bench
unfolding after_dump
clocked p o s =
    let r = get_debug_register o.registers s.debug_register in
    after_dump p o r s (dump_kanata p.enable_dump_kanata r s.kanata_dumper)

-- The end of a round.
unfoldable pub advance : Options → Outputs → Bench → Step
advance p o s =
    let time = (s.main_time + rsd_step) % 2 ^ 32 in
    let s' = record s {
      start = not o.pos_reset_out;
      main_time = time;
      neg_reset_in = if time == 128 then true else s.neg_reset_in;
    } in
    if leb p.max_test_cycles s.cycles then finished s' else running s'

-- `ledOut` has 16 bits.
unfoldable pub reaches_goal : Options → Outputs → Bool
reaches_goal p o = p.enable_pc_goal && o.led_out == p.pc_goal % 2 ^ 16

unfoldable pub at_goal : Options → Bench → Bench
at_goal p s = record s {
  messages = s.messages ++ (codes "PC reached PC_GOAL: " ++ (hex8 p.pc_goal ++ codes "\n")) ∷ [];
}

unfoldable pub clock_edge : Options → Outputs → Option Bench → Step
unfolding at_goal
clock_edge p o none = fault
clock_edge p o (some s') = if reaches_goal p o then finished (at_goal p s') else advance p o s'

-- `if (tfp) tfp->dump(time)`.
unfoldable pub dump_trace : ℕ → Option (List ℕ) → Option (List ℕ)
dump_trace time none = none
dump_trace time (some times) = some (times ++ time ∷ [])

-- The clocks, `eval` and the trace.
abbrev pub evaluated : Outputs → Bench → Bench
evaluated o s = record s {
  clk_p = not s.clk_p;
  clk_n = not s.clk_n;
  seen = o;
  trace = dump_trace s.main_time s.trace;
}

-- A round of the loop.
unfoldable pub half_cycle : Options → Outputs → Bench → Step
unfolding clock_edge clocked
half_cycle p o s =
    let s' = evaluated o s in
    if not s.clk_p && s.start then clock_edge p o (clocked p o s') else advance p o s'

-- The loop on what its rounds see; what comes after its end is not looked at.
unfoldable pub simulate : Options → List Outputs → Bench → Step
simulate p [] s = running s
simulate p (o ∷ os) s = elim o.got_finish [
  | true ↦ finished s
  | false ↦ elim (half_cycle p o s) [
    | running s' ↦ simulate p os s'
    | finished s' ↦ finished s'
    | fault ↦ fault
  ]
]
