-- ===== src/Dumper/Kanata/FrontEnd.antt =====
-- Dumper.h, `DumpCycle`: the stages from the next PC to the dispatch.
use rsd_mp.Common.{List, [], ◌++◌, ℕ, Bool, false, not, ◌&&◌, ◌||◌, if◌then◌else◌}
use rsd_mp.Common.Text.{Chars, codes}
use rsd_mp.Common.Format.{dec}
use rsd_mp.VerilatorHelper.Stage
use rsd_mp.VerilatorHelper.Stage.{OpId}
use rsd_mp.VerilatorHelper.Register.{DebugRegister}
use rsd_mp.Dumper.Kanata.Base.{LogLine, dump_stage, dump_insn_code, for_each, bin_to_str}
use rsd_mp.Dumper.Kanata.Base.{ks_np, ks_if, ks_pd, ks_id, ks_rn, ks_ds}

unfoldable pub np_lines : DebugRegister → List LogLine
unfolding for_each dump_stage
np_lines r =
    for_each
      (λ (x : Stage.NextPcStageDebugRegister).
        dump_stage ks_np x.valid r.np_stage_pipe_ctrl.stall r.np_stage_pipe_ctrl.clear x.sid 0 [])
      r.np_reg

unfoldable pub if_lines : DebugRegister → List LogLine
unfolding for_each dump_stage
if_lines r =
    for_each
      (λ (x : Stage.FetchStageDebugRegister).
        dump_stage ks_if x.valid (r.if_stage_pipe_ctrl.stall && not x.flush)
          (r.if_stage_pipe_ctrl.clear || x.flush) x.sid 0
          (if x.ic_miss then codes "i-cache-miss\\n" else []))
      r.if_reg

pd_comment : Stage.PreDecodeStageDebugRegister → Chars
pd_comment x =
    codes "optype:0b"
    ++ (bin_to_str x.op_type 3 false
        ++ (codes " ALU-code:0b" ++ (bin_to_str x.alu_code 4 false ++ codes "\\n")))

unfoldable pub pd_lines : DebugRegister → List LogLine
unfolding for_each dump_stage pd_comment
pd_lines r =
    for_each
      (λ (x : Stage.PreDecodeStageDebugRegister).
        dump_stage ks_pd x.valid r.pd_stage_pipe_ctrl.stall r.pd_stage_pipe_ctrl.clear x.sid 0
          (pd_comment x))
      r.pd_reg

-- The last message that applies is shown.
id_comment : Stage.DecodeStageDebugRegister → Chars
id_comment x =
    if x.flush_triggering
    then codes "Br-pred-miss-id\\n"
    else if x.unsupported
    then codes "An unsupported instruction is decoded."
    else if x.undefined
    then codes "An undefined instruction is decoded."
    else []

unfoldable pub id_lines : DebugRegister → List LogLine
unfolding for_each dump_stage id_comment
id_lines r =
    for_each
      (λ (x : Stage.DecodeStageDebugRegister).
        dump_stage ks_id x.valid (r.id_stage_pipe_ctrl.stall && not r.stall_by_decode_stage)
          (r.id_stage_pipe_ctrl.clear || x.flushed) x.op_id.sid x.op_id.mid (id_comment x))
      r.id_reg

unfoldable pub code_lines : DebugRegister → List LogLine
unfolding for_each dump_insn_code
code_lines r =
    for_each
      (λ (x : Stage.DecodeStageDebugRegister).
        if x.valid then dump_insn_code x.op_id.sid x.op_id.mid x.pc x.insn else [])
      r.id_reg

unfoldable pub rn_lines : DebugRegister → List LogLine
unfolding for_each dump_stage
rn_lines r =
    for_each
      (λ (x : Stage.RenameStageDebugRegister).
        dump_stage ks_rn x.valid r.rn_stage_pipe_ctrl.stall r.rn_stage_pipe_ctrl.clear x.op_id.sid
          x.op_id.mid [])
      r.rn_reg

-- "r%0d(p%0d), ", or nothing if the register is not used.
reg_pair : Bool → ℕ → ℕ → Chars
reg_pair used log phy =
    if used then codes "r" ++ (dec log ++ (codes "(p" ++ (dec phy ++ codes "), "))) else []

ds_comment : Stage.DispatchStageDebugRegister → Chars
unfolding reg_pair
ds_comment x =
    codes "map: "
    ++ (reg_pair x.write_reg x.log_dst_reg x.phy_dst_reg
        ++ (codes " = "
            ++ (reg_pair x.read_reg_a x.log_src_reg_a x.phy_src_reg_a
                ++ (reg_pair x.read_reg_b x.log_src_reg_b x.phy_src_reg_b
                    ++ (reg_pair x.read_reg_c x.log_src_reg_c x.phy_src_reg_c
                        ++ (codes "\\nprev: "
                            ++ (reg_pair x.write_reg x.log_dst_reg x.phy_prev_dst_reg
                                ++ (codes "\\nAL alloc: "
                                    ++ (dec x.active_list_ptr
                                        ++ (codes " \\nIQ alloc: "
                                            ++ (dec x.issue_queue_ptr ++ codes " ")))))))))))

unfoldable pub ds_lines : DebugRegister → List LogLine
unfolding for_each dump_stage ds_comment
ds_lines r =
    for_each
      (λ (x : Stage.DispatchStageDebugRegister).
        dump_stage ks_ds x.valid r.ds_stage_pipe_ctrl.stall r.ds_stage_pipe_ctrl.clear x.op_id.sid
          x.op_id.mid (ds_comment x))
      r.ds_reg
