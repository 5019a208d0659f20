-- ===== src/TestBench/Simulation/Observed.antt =====
-- TestMain.cpp, `main`: an abstract view of the loop. It keeps the counters, the debug register and
-- the dumpers, and forgets the clock, the reset, the time and when the loop ends.
pub mod Laws
pub mod Files
use rsd_mp.Common.{ℕ, suc, ◌+◌, List, [], ◌∷◌, Bool, not, ◌&&◌, Option, some, if◌then◌else◌, ◌>>=◌}
use rsd_mp.VerilatorHelper.Register.{DebugRegister}
use rsd_mp.VerilatorHelper.Get.{get_debug_register}
use rsd_mp.Dumper.Serial.{SerialDumper, check_signal}
use rsd_mp.Dumper.Kanata.{KanataDumper}
use rsd_mp.Dumper.RegisterCsv.{RegisterFileCsvDumper}
use rsd_mp.TestBench.Simulation.{
  Options, Outputs, Bench, dump_kanata, dump_reg_csv, micro_ops, first_ops,
}

pub record Log : Type 0 where
  pub cycles : ℕ
  pub ops : ℕ
  pub micro : ℕ
  pub register : DebugRegister
  pub serial : SerialDumper
  pub kanata : KanataDumper
  pub csv : RegisterFileCsvDumper

-- The view of a state.
abbrev pub log : Bench → Log
log s = record {
  cycles = s.cycles;
  ops = s.committed_ops;
  micro = s.committed_micro_ops;
  register = s.debug_register;
  serial = s.serial_dumper;
  kanata = s.kanata_dumper;
  csv = s.csv_dumper;
}

-- A cycle of the core with these outputs is recorded.
unfoldable pub record_cycle : Options → Outputs → Log → Option Log
record_cycle p o l = do
  k ← dump_kanata p.enable_dump_kanata (get_debug_register o.registers l.register) l.kanata
  d ← dump_reg_csv p.enable_dump_reg_csv o l.csv
  some (record {
    cycles = suc l.cycles;
    ops = l.ops + first_ops (get_debug_register o.registers l.register).cm_reg;
    micro = l.micro + micro_ops (get_debug_register o.registers l.register).cm_reg;
    register = get_debug_register o.registers l.register;
    serial = check_signal o.serial_we o.serial_write_data l.serial;
    kanata = k;
    csv = d;
  })

unfoldable pub record_all : Options → List Outputs → Log → Option Log
unfolding record_cycle
record_all p [] l = some l
record_all p (o ∷ os) l = record_cycle p o l >>= record_all p os

-- The cycles among the rounds: those with a rising edge, after a round that left the core out of
-- reset. The two flags are the clock before the first round, and whether the core is out of reset.
unfoldable pub observed : Bool → Bool → List Outputs → List Outputs
observed clk start [] = []
observed clk start (o ∷ os) =
    let rest = observed (not clk) (not o.pos_reset_out) os in
    if not clk && start then o ∷ rest else rest
