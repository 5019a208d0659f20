-- ===== src/Dumper/Kanata/Memory.antt =====
-- Dumper.h, `DumpCycle`: the tag access and the memory access.
use rsd_mp.Common.{List, [], ◌++◌, if◌then◌else◌}
use rsd_mp.Common.Text.{Chars, codes}
use rsd_mp.Common.Format.{dec, hex}
use rsd_mp.VerilatorHelper.Stage
use rsd_mp.VerilatorHelper.Stage.{OpId}
use rsd_mp.VerilatorHelper.Register.{DebugRegister}
use rsd_mp.Dumper.Kanata.Base.{LogLine, dump_stage, for_each}
use rsd_mp.Dumper.Kanata.Base.{ks_ma, ks_mt}

load_comment : Stage.MemoryTagAccessStageDebugRegister → Chars
load_comment x =
    codes "\\n = load([#0x"
    ++ (hex x.executed_load_addr
        ++ (codes "])"
            ++ (if x.mshr_allocated
                then codes "\\nD$-miss. MSHR alloc: " ++ dec x.mshr_entry_id
                else if x.mshr_hit
                then codes "\\nMSHR hit: " ++ dec x.mshr_entry_id
                else [])))

mt_comment : Stage.MemoryTagAccessStageDebugRegister → Chars
unfolding load_comment
mt_comment x =
    (if x.execute_load then load_comment x else [])
    ++ (if x.execute_store
        then (codes "\\nstore(#0x"
            ++ (hex x.executed_store_data
                ++ (codes ", [#0x" ++ (hex x.executed_store_addr ++ codes "])\\n"))))
        else [])

unfoldable pub mt_lines : DebugRegister → List LogLine
unfolding for_each dump_stage mt_comment
mt_lines r =
    for_each
      (λ (x : Stage.MemoryTagAccessStageDebugRegister).
        dump_stage ks_mt x.valid r.back_end_pipe_ctrl.stall x.flush x.op_id.sid x.op_id.mid
          (mt_comment x))
      r.mt_reg

ma_comment : Stage.MemoryAccessStageDebugRegister → Chars
ma_comment x =
    if x.execute_load then codes "\\n#0x" ++ (hex x.executed_load_data ++ codes " = load()") else []

unfoldable pub ma_lines : DebugRegister → List LogLine
unfolding for_each dump_stage ma_comment
ma_lines r =
    for_each
      (λ (x : Stage.MemoryAccessStageDebugRegister).
        dump_stage ks_ma x.valid r.back_end_pipe_ctrl.stall x.flush x.op_id.sid x.op_id.mid
          (ma_comment x))
      r.ma_reg
