-- ===== src/Dumper/Kanata.antt =====
-- Dumper.h, class `KanataDumper`: the log of the pipeline for the Kanata viewer. A `LogLine` is what
-- one call of `fprintf` writes, and `render` its text. The build has RSD_FUNCTIONAL_SIMULATION and
-- RSD_MARCH_FP_PIPE defined, as Makefile.verilator.mk does.
pub mod Base
pub mod FrontEnd
pub mod BackEnd
pub mod Execution
pub mod Memory
pub mod Helpers
pub mod Operations
pub mod Lines
pub mod Laws
pub mod Has
pub mod Complete
pub mod Log
use rsd_mp.Common.{ℕ, suc, List, [], ◌∷◌, ◌++◌, Option, none, some, Bool, true, false}
use rsd_mp.VerilatorHelper.Register.{DebugRegister}
use rsd_mp.Dumper.Kanata.Base.{LogLine, header, cycle, for_each}
use rsd_mp.Dumper.Kanata.FrontEnd.{
  np_lines, if_lines, pd_lines, id_lines, code_lines, rn_lines, ds_lines,
}
use rsd_mp.Dumper.Kanata.BackEnd.{sc_lines, is_lines, rr_lines, rw_lines, cm_lines}
use rsd_mp.Dumper.Kanata.Execution.{int_ex_lines, complex_ex_lines, mem_ex_lines, fp_ex_lines}
use rsd_mp.Dumper.Kanata.Memory.{mt_lines, ma_lines}

-- `m_file`, the lines written so far or `none` for a null pointer; `m_cycle` plus one; `m_retireID`.
pub record KanataDumper : Type 0 where
  pub file : Option (List LogLine)
  pub cycles : ℕ
  pub retire_id : ℕ

unfoldable pub new_dumper : KanataDumper
new_dumper = record { file = none; cycles = 1; retire_id = 0 }

-- The flag says whether `fopen` succeeds. If it does not, the header is written to a null pointer,
-- which is undefined: `none`.
unfoldable pub open_dumper : Bool → KanataDumper → Option KanataDumper
open_dumper true k = some (record { file = some (header ∷ []); cycles = 0; retire_id = 1 })
open_dumper false k = none

pub close_dumper : KanataDumper → KanataDumper
close_dumper k = record k { file = none }

-- A write to the log; one to a null pointer is `none`.
unfoldable pub write : List LogLine → KanataDumper → Option KanataDumper
write lines k = elim k.file [
  | none ↦ none
  | some before ↦ some (record k { file = some (before ++ lines) })
]

-- The line names the value that `m_cycle` has after the step.
unfoldable pub proceed_cycle : KanataDumper → Option KanataDumper
unfolding write
proceed_cycle k = write (cycle k.cycles ∷ []) (record k { cycles = suc k.cycles })

-- What `DumpCycle` writes after `ProceedCycle`, in its order.
unfoldable pub stage_lines : DebugRegister → List LogLine
stage_lines r =
    np_lines r
    ++ (if_lines r
        ++ (pd_lines r
            ++ (id_lines r
                ++ (code_lines r
                    ++ (rn_lines r
                        ++ (ds_lines r
                            ++ (sc_lines r
                                ++ (is_lines r
                                    ++ (rr_lines r
                                        ++ (int_ex_lines r
                                            ++ (complex_ex_lines r
                                                ++ (mem_ex_lines r
                                                    ++ (fp_ex_lines r
                                                        ++ (mt_lines r
                                                            ++ (ma_lines r
                                                            ++ (rw_lines r
                                                            ++ cm_lines r))))))))))))))))

unfoldable pub dump_cycle : DebugRegister → KanataDumper → Option KanataDumper
unfolding proceed_cycle stage_lines
dump_cycle r k = elim (proceed_cycle k) [ none ↦ none | some k' ↦ write (stage_lines r) k' ]

-- The dumper over a run: one `DumpCycle` after another.
unfoldable pub dump_all : List DebugRegister → KanataDumper → Option KanataDumper
dump_all [] k = some k
dump_all (r ∷ rs) k = elim (dump_cycle r k) [ none ↦ none | some k' ↦ dump_all rs k' ]
