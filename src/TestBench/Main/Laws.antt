-- ===== src/TestBench/Main/Laws.antt =====
-- TestMain.cpp, `main`: the test bench keeps to the number of cycles that its command line gives.
use rsd_mp.Common.{
  ℕ, ◌+◌, ◌*◌, ◌<◌, ◌≤◌, List, [], ◌++◌, false, Option, none, some, ◌≡◌, sym, All, length, subst,
  Option-cases, inl, inr,
}
use rsd_mp.Common.Text.{Chars}
use rsd_mp.Common.Int.{pos, int_max}
use rsd_mp.Common.Memory.{Memory}
use rsd_mp.Dumper.Kanata.{KanataDumper}
use rsd_mp.Dumper.RegisterFile.{RegisterFileHexDumper}
use rsd_mp.TestBench.Arguments.{Parameters, defaults, Parsed}
use rsd_mp.TestBench.Arguments.Laws.{IsValue, arguments, parse_arguments-arguments}
use rsd_mp.TestBench.HexFile.{Load, loaded, exit, out_of_range}
use rsd_mp.TestBench.Simulation.{Outputs, Bench, Step, running, finished, fault, initial, simulate}
use rsd_mp.TestBench.Simulation.Laws.{IsStep, simulate-IsStep}
use rsd_mp.TestBench.Simulation.End.{IsRunning, simulate-ends}
use rsd_mp.TestBench.Main.{
  World, Run, returned, exits, aborted, undefined, going_on, options, initial_csv, initial_serial,
  initial_trace, dump_final, after_final, finish, after_load, after_open, after_parsing, main,
}

-- The run is over, and at its end the simulation has counted no more than `n` cycles, and no more
-- instructions than micro-operations.
abbrev pub IsRun : ℕ → Run → Type 0
IsRun n (returned r) = (r.bench.cycles ≤ n) × (r.bench.committed_ops ≤ r.bench.committed_micro_ops)
IsRun n exits = Unit
IsRun n aborted = Unit
IsRun n undefined = Unit
IsRun n (going_on s) = ⊥

after_final-IsRun :
    (n : ℕ) (w : World) (printed : List Chars) (s : Bench) (d : Option RegisterFileHexDumper)
    → s.cycles ≤ n
    → s.committed_ops ≤ s.committed_micro_ops
    → IsRun n (after_final w printed s d)
unfolding after_final
after_final-IsRun n w printed s none c m = tt
after_final-IsRun n w printed s (some d) c m = elim (Option-cases d.file) [
  | inl e ↦ rw e tt
  | inr (lines, e) ↦ rw e (c, m)
]

finish-IsRun :
    (w : World) (p : Parameters) (printed : List Chars) (r : Step)
    → IsStep (options w p) r
    → ¬ IsRunning r
    → IsRun ((options w p).max_test_cycles) (finish w p printed r)
unfolding finish
finish-IsRun w p printed (running s) h over = absurd (over tt)
finish-IsRun w p printed (finished s) (k, c, m, t, rest) over =
    after_final-IsRun _ w printed s (dump_final w p s) c m
finish-IsRun w p printed fault h over = tt

-- The rounds end with enough of them in which the core is out of reset; in those before, in which it
-- is held in reset, it may do anything.
abbrev pub IsAwake : World → ℕ → Type 0
IsAwake w n =
    (mem : Memory)
    → (before os : List Outputs) × (w.rounds mem ≡ before ++ os)
      × (2 * n + 2 ≤ length os)
      × All (λ (o : Outputs). o.pos_reset_out ≡ false) os

after_load-IsRun :
    (w : World) (s : Parsed) (k : KanataDumper) (r : Load)
    → 0 < (options w s.parameters).max_test_cycles
    → IsAwake w ((options w s.parameters).max_test_cycles)
    → IsRun ((options w s.parameters).max_test_cycles) (after_load w s k r)
unfolding after_load
after_load-IsRun w s k (loaded mem word_addr) lt awake =
    let p = options w s.parameters in
    let serial = initial_serial w s.parameters in
    let csv = initial_csv w s.parameters in
    let trace = initial_trace s.parameters in
    let (before, os, e, le, out) = awake mem in
    finish-IsRun w s.parameters _ _
      (simulate-IsStep p (w.rounds mem) w.cleared serial k csv (w.first mem) trace lt).0
      (subst
        (λ rounds.
          ¬ IsRunning (simulate p rounds (initial w.cleared serial k csv (w.first mem) trace)))
        (sym e)
        (simulate-ends p before os (initial w.cleared serial k csv (w.first mem) trace) out le))
after_load-IsRun w s k exit lt awake = tt
after_load-IsRun w s k out_of_range lt awake = tt

after_open-IsRun :
    (w : World) (s : Parsed) (k : Option KanataDumper)
    → 0 < (options w s.parameters).max_test_cycles
    → IsAwake w ((options w s.parameters).max_test_cycles)
    → IsRun ((options w s.parameters).max_test_cycles) (after_open w s k)
unfolding after_open
after_open-IsRun w s none lt awake = tt
after_open-IsRun w s (some k) lt awake = after_load-IsRun w s k _ lt awake

-- Called with the parameters `p` and a maximum of `n` cycles on its command line, with `n` above 0
-- and an `int`, and the four texts not empty and without `=`, the test bench is over once the core has
-- been out of reset for `2 * n + 2` rounds in a row, after any rounds in which it is held in reset,
-- whatever else the core does and whichever files there are; and if it returns, it has counted at most
-- `n` cycles and no more instructions than micro-operations.
pub main-IsRun :
    (w : World) (n : ℕ) (p : Parameters)
    → 0 < n
    → n ≤ int_max
    → IsValue p.reg_csv_file
    → IsValue p.rsd_log_file
    → IsValue p.test_code
    → IsValue p.wave_log_file
    → IsAwake w n
    → IsRun n (main w (arguments n p))
unfolding main after_parsing options
main-IsRun w n p lt le csv log code wave awake =
    subst (λ o. IsRun n (after_parsing w o))
      (sym (parse_arguments-arguments n p defaults [] le csv log code wave))
      (after_open-IsRun w
        (record { parameters = record p { max_test_cycles = pos n }; messages = [] }) _ lt awake)
