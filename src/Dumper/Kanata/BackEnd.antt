-- ===== src/Dumper/Kanata/BackEnd.antt =====
-- Dumper.h, `DumpCycle`: the scheduler, issue, register read, register write and commit.
use rsd_mp.Common.{List, [], ◌∷◌, ◌++◌, Bool, true, false, if◌then◌else◌}
use rsd_mp.Common.Text.{Chars, codes}
use rsd_mp.Common.Format.{dec}
use rsd_mp.VerilatorHelper.Stage
use rsd_mp.VerilatorHelper.Stage.{OpId}
use rsd_mp.VerilatorHelper.Register.{DebugRegister}
use rsd_mp.Dumper.Kanata.Base.{LogLine, dump_stage, for_each}
use rsd_mp.Dumper.Kanata.Base.{ks_sc, ks_is, ks_rr, ks_rw, ks_wc, ks_cm}

-- Entry by entry of the scheduler and of the issue queue.
unfoldable pub sc_loop :
    Bool → List Stage.SchedulerDebugRegister → List Stage.IssueQueueDebugRegister → List LogLine
sc_loop stall [] qs = []
sc_loop stall (x ∷ xs) [] = []
sc_loop stall (x ∷ xs) (q ∷ qs) =
    dump_stage ks_sc x.valid stall q.flush q.op_id.sid q.op_id.mid [] ++ sc_loop stall xs qs

unfoldable pub sc_lines : DebugRegister → List LogLine
unfolding sc_loop dump_stage
sc_lines r = sc_loop r.back_end_pipe_ctrl.stall r.scheduler r.issue_queue

unfoldable pub int_is_lines : DebugRegister → List LogLine
unfolding for_each dump_stage
int_is_lines r =
    for_each
      (λ (x : Stage.IntegerIssueStageDebugRegister).
        dump_stage ks_is x.valid r.back_end_pipe_ctrl.stall x.flush x.op_id.sid x.op_id.mid [])
      r.int_is_reg

unfoldable pub complex_is_lines : DebugRegister → List LogLine
unfolding for_each dump_stage
complex_is_lines r =
    for_each
      (λ (x : Stage.ComplexIntegerIssueStageDebugRegister).
        dump_stage ks_is x.valid r.back_end_pipe_ctrl.stall x.flush x.op_id.sid x.op_id.mid [])
      r.complex_is_reg

unfoldable pub mem_is_lines : DebugRegister → List LogLine
unfolding for_each dump_stage
mem_is_lines r =
    for_each
      (λ (x : Stage.MemoryIssueStageDebugRegister).
        dump_stage ks_is x.valid r.back_end_pipe_ctrl.stall x.flush x.op_id.sid x.op_id.mid [])
      r.mem_is_reg

unfoldable pub fp_is_lines : DebugRegister → List LogLine
unfolding for_each dump_stage
fp_is_lines r =
    for_each
      (λ (x : Stage.FpIntegerIssueStageDebugRegister).
        dump_stage ks_is x.valid r.back_end_pipe_ctrl.stall x.flush x.op_id.sid x.op_id.mid [])
      r.fp_is_reg

unfoldable pub is_lines : DebugRegister → List LogLine
unfolding int_is_lines complex_is_lines mem_is_lines fp_is_lines
is_lines r = int_is_lines r ++ (complex_is_lines r ++ (mem_is_lines r ++ fp_is_lines r))

unfoldable pub int_rr_lines : DebugRegister → List LogLine
unfolding for_each dump_stage
int_rr_lines r =
    for_each
      (λ (x : Stage.IntegerRegisterReadStageDebugRegister).
        dump_stage ks_rr x.valid r.back_end_pipe_ctrl.stall x.flush x.op_id.sid x.op_id.mid [])
      r.int_rr_reg

unfoldable pub complex_rr_lines : DebugRegister → List LogLine
unfolding for_each dump_stage
complex_rr_lines r =
    for_each
      (λ (x : Stage.ComplexIntegerRegisterReadStageDebugRegister).
        dump_stage ks_rr x.valid r.back_end_pipe_ctrl.stall x.flush x.op_id.sid x.op_id.mid [])
      r.complex_rr_reg

unfoldable pub mem_rr_lines : DebugRegister → List LogLine
unfolding for_each dump_stage
mem_rr_lines r =
    for_each
      (λ (x : Stage.MemoryRegisterReadStageDebugRegister).
        dump_stage ks_rr x.valid r.back_end_pipe_ctrl.stall x.flush x.op_id.sid x.op_id.mid [])
      r.mem_rr_reg

unfoldable pub fp_rr_lines : DebugRegister → List LogLine
unfolding for_each dump_stage
fp_rr_lines r =
    for_each
      (λ (x : Stage.FpIntegerRegisterReadStageDebugRegister).
        dump_stage ks_rr x.valid r.back_end_pipe_ctrl.stall x.flush x.op_id.sid x.op_id.mid [])
      r.fp_rr_reg

unfoldable pub rr_lines : DebugRegister → List LogLine
unfolding int_rr_lines complex_rr_lines mem_rr_lines fp_rr_lines
rr_lines r = int_rr_lines r ++ (complex_rr_lines r ++ (mem_rr_lines r ++ fp_rr_lines r))

unfoldable pub int_rw_lines : DebugRegister → List LogLine
unfolding for_each dump_stage
int_rw_lines r =
    for_each
      (λ (x : Stage.IntegerRegisterWriteStageDebugRegister).
        dump_stage ks_rw x.valid r.back_end_pipe_ctrl.stall x.flush x.op_id.sid x.op_id.mid [])
      r.int_rw_reg

unfoldable pub complex_rw_lines : DebugRegister → List LogLine
unfolding for_each dump_stage
complex_rw_lines r =
    for_each
      (λ (x : Stage.ComplexIntegerRegisterWriteStageDebugRegister).
        dump_stage ks_rw x.valid r.back_end_pipe_ctrl.stall x.flush x.op_id.sid x.op_id.mid [])
      r.complex_rw_reg

unfoldable pub mem_rw_lines : DebugRegister → List LogLine
unfolding for_each dump_stage
mem_rw_lines r =
    for_each
      (λ (x : Stage.MemoryRegisterWriteStageDebugRegister).
        dump_stage ks_rw x.valid r.back_end_pipe_ctrl.stall x.flush x.op_id.sid x.op_id.mid [])
      r.mem_rw_reg

unfoldable pub fp_rw_lines : DebugRegister → List LogLine
unfolding for_each dump_stage
fp_rw_lines r =
    for_each
      (λ (x : Stage.FpIntegerRegisterWriteStageDebugRegister).
        dump_stage ks_rw x.valid r.back_end_pipe_ctrl.stall x.flush x.op_id.sid x.op_id.mid [])
      r.fp_rw_reg

unfoldable pub rw_lines : DebugRegister → List LogLine
unfolding int_rw_lines complex_rw_lines mem_rw_lines fp_rw_lines
rw_lines r = int_rw_lines r ++ (complex_rw_lines r ++ (mem_rw_lines r ++ fp_rw_lines r))

cm_comment : Stage.CommitStageDebugRegister → Chars
cm_comment x =
    codes "\\nrelease: "
    ++ (if x.release_reg then codes "p" ++ (dec x.phy_released_reg ++ codes ", ") else [])

unfoldable pub cm_lines : DebugRegister → List LogLine
unfolding for_each dump_stage cm_comment
cm_lines r =
    for_each
      (λ (x : Stage.CommitStageDebugRegister).
        if x.flush
        then dump_stage ks_wc x.flush false true x.op_id.sid x.op_id.mid (cm_comment x)
        else if x.commit
        then dump_stage ks_cm x.commit false false x.op_id.sid x.op_id.mid (cm_comment x)
        else [])
      r.cm_reg
