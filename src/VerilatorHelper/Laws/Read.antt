-- ===== src/VerilatorHelper/Laws/Read.antt =====
-- VerilatorHelper.h: what it means that a debug register has been read from the core.
use rsd_mp.Common.{ℕ, some, get_elem?, ◌≡◌}
use rsd_mp.VerilatorHelper.Accessors.{Accessors}
use rsd_mp.VerilatorHelper.Register.{DebugRegister}
use rsd_mp.VerilatorHelper.Stage.{CommitStageDebugRegister, ComplexIntegerIssueStageDebugRegister}
use rsd_mp.VerilatorHelper.Stage.{ComplexIntegerRegisterReadStageDebugRegister}
use rsd_mp.VerilatorHelper.Stage.{ComplexIntegerRegisterWriteStageDebugRegister}
use rsd_mp.VerilatorHelper.Stage.{DecodeStageDebugRegister, DispatchStageDebugRegister}
use rsd_mp.VerilatorHelper.Stage.{FetchStageDebugRegister, FpIntegerIssueStageDebugRegister}
use rsd_mp.VerilatorHelper.Stage.{FpIntegerRegisterReadStageDebugRegister}
use rsd_mp.VerilatorHelper.Stage.{FpIntegerRegisterWriteStageDebugRegister}
use rsd_mp.VerilatorHelper.Stage.{IntegerExecutionStageDebugRegister}
use rsd_mp.VerilatorHelper.Stage.{IntegerIssueStageDebugRegister}
use rsd_mp.VerilatorHelper.Stage.{IntegerRegisterReadStageDebugRegister}
use rsd_mp.VerilatorHelper.Stage.{IntegerRegisterWriteStageDebugRegister, IssueQueueDebugRegister}
use rsd_mp.VerilatorHelper.Stage.{MemoryAccessStageDebugRegister}
use rsd_mp.VerilatorHelper.Stage.{MemoryExecutionStageDebugRegister}
use rsd_mp.VerilatorHelper.Stage.{MemoryIssueStageDebugRegister}
use rsd_mp.VerilatorHelper.Stage.{MemoryRegisterReadStageDebugRegister}
use rsd_mp.VerilatorHelper.Stage.{MemoryRegisterWriteStageDebugRegister}
use rsd_mp.VerilatorHelper.Stage.{MemoryTagAccessStageDebugRegister, NextPcStageDebugRegister}
use rsd_mp.VerilatorHelper.Stage.{PreDecodeStageDebugRegister, RenameStageDebugRegister}
use rsd_mp.VerilatorHelper.Stage.{SchedulerDebugRegister}
use rsd_mp.VerilatorHelper.Laws.FrontEnd.{np_reg_read, if_reg_read}
use rsd_mp.VerilatorHelper.Laws.FrontEnd.{pd_reg_read}
use rsd_mp.VerilatorHelper.Laws.FrontEnd.{id_reg_read, rn_reg_read}
use rsd_mp.VerilatorHelper.Laws.FrontEnd.{ds_reg_read}
use rsd_mp.VerilatorHelper.Laws.FrontEnd.{cm_reg_read, scheduler_read}
use rsd_mp.VerilatorHelper.Laws.FrontEnd.{issue_queue_read}
use rsd_mp.VerilatorHelper.Laws.Integer.{int_is_reg_read, int_rr_reg_read}
use rsd_mp.VerilatorHelper.Laws.Integer.{int_ex_reg_read}
use rsd_mp.VerilatorHelper.Laws.Integer.{int_rw_reg_read, complex_is_reg_read}
use rsd_mp.VerilatorHelper.Laws.Integer.{complex_rr_reg_read}
use rsd_mp.VerilatorHelper.Laws.Integer.{complex_rw_reg_read}
use rsd_mp.VerilatorHelper.Laws.Memory.{mem_is_reg_read, mem_rr_reg_read}
use rsd_mp.VerilatorHelper.Laws.Memory.{mem_ex_reg_read}
use rsd_mp.VerilatorHelper.Laws.Memory.{mt_reg_read, ma_reg_read}
use rsd_mp.VerilatorHelper.Laws.Memory.{mem_rw_reg_read}
use rsd_mp.VerilatorHelper.Laws.FloatingPoint.{fp_is_reg_read, fp_rr_reg_read}
use rsd_mp.VerilatorHelper.Laws.FloatingPoint.{fp_rw_reg_read}

-- Every entry of `d'` has the members that the core has; an entry of `d` keeps only the members that
-- the test bench never reads.
pub record IsRead (h : Accessors) (d d' : DebugRegister) : Type 0 where
  pub np_reg :
      (i : ℕ) (s : NextPcStageDebugRegister)
      → get_elem? d.np_reg i ≡ some s
      → get_elem? d'.np_reg i ≡ some (np_reg_read h i)
  pub if_reg :
      (i : ℕ) (s : FetchStageDebugRegister)
      → get_elem? d.if_reg i ≡ some s
      → get_elem? d'.if_reg i ≡ some (if_reg_read h i)
  pub pd_reg :
      (i : ℕ) (s : PreDecodeStageDebugRegister)
      → get_elem? d.pd_reg i ≡ some s
      → get_elem? d'.pd_reg i ≡ some (pd_reg_read h i)
  pub id_reg :
      (i : ℕ) (s : DecodeStageDebugRegister)
      → get_elem? d.id_reg i ≡ some s
      → get_elem? d'.id_reg i ≡ some (id_reg_read h i)
  pub rn_reg :
      (i : ℕ) (s : RenameStageDebugRegister)
      → get_elem? d.rn_reg i ≡ some s
      → get_elem? d'.rn_reg i ≡ some (rn_reg_read h i)
  pub ds_reg :
      (i : ℕ) (s : DispatchStageDebugRegister)
      → get_elem? d.ds_reg i ≡ some s
      → get_elem? d'.ds_reg i ≡ some (ds_reg_read h i)
  pub int_is_reg :
      (i : ℕ) (s : IntegerIssueStageDebugRegister)
      → get_elem? d.int_is_reg i ≡ some s
      → get_elem? d'.int_is_reg i ≡ some (int_is_reg_read h i)
  pub int_rr_reg :
      (i : ℕ) (s : IntegerRegisterReadStageDebugRegister)
      → get_elem? d.int_rr_reg i ≡ some s
      → get_elem? d'.int_rr_reg i ≡ some (int_rr_reg_read h i)
  pub int_ex_reg :
      (i : ℕ) (s : IntegerExecutionStageDebugRegister)
      → get_elem? d.int_ex_reg i ≡ some s
      → get_elem? d'.int_ex_reg i ≡ some (int_ex_reg_read h i)
  pub int_rw_reg :
      (i : ℕ) (s : IntegerRegisterWriteStageDebugRegister)
      → get_elem? d.int_rw_reg i ≡ some s
      → get_elem? d'.int_rw_reg i ≡ some (int_rw_reg_read h i)
  pub complex_is_reg :
      (i : ℕ) (s : ComplexIntegerIssueStageDebugRegister)
      → get_elem? d.complex_is_reg i ≡ some s
      → get_elem? d'.complex_is_reg i ≡ some (complex_is_reg_read h i)
  pub complex_rr_reg :
      (i : ℕ) (s : ComplexIntegerRegisterReadStageDebugRegister)
      → get_elem? d.complex_rr_reg i ≡ some s
      → get_elem? d'.complex_rr_reg i ≡ some (complex_rr_reg_read h i)
  pub complex_rw_reg :
      (i : ℕ) (s : ComplexIntegerRegisterWriteStageDebugRegister)
      → get_elem? d.complex_rw_reg i ≡ some s
      → get_elem? d'.complex_rw_reg i ≡ some (complex_rw_reg_read h i)
  pub mem_is_reg :
      (i : ℕ) (s : MemoryIssueStageDebugRegister)
      → get_elem? d.mem_is_reg i ≡ some s
      → get_elem? d'.mem_is_reg i ≡ some (mem_is_reg_read h i)
  pub mem_rr_reg :
      (i : ℕ) (s : MemoryRegisterReadStageDebugRegister)
      → get_elem? d.mem_rr_reg i ≡ some s
      → get_elem? d'.mem_rr_reg i ≡ some (mem_rr_reg_read h i)
  pub mem_ex_reg :
      (i : ℕ) (s : MemoryExecutionStageDebugRegister)
      → get_elem? d.mem_ex_reg i ≡ some s
      → get_elem? d'.mem_ex_reg i ≡ some (mem_ex_reg_read h i s)
  pub mt_reg :
      (i : ℕ) (s : MemoryTagAccessStageDebugRegister)
      → get_elem? d.mt_reg i ≡ some s
      → get_elem? d'.mt_reg i ≡ some (mt_reg_read h i s)
  pub ma_reg :
      (i : ℕ) (s : MemoryAccessStageDebugRegister)
      → get_elem? d.ma_reg i ≡ some s
      → get_elem? d'.ma_reg i ≡ some (ma_reg_read h i s)
  pub mem_rw_reg :
      (i : ℕ) (s : MemoryRegisterWriteStageDebugRegister)
      → get_elem? d.mem_rw_reg i ≡ some s
      → get_elem? d'.mem_rw_reg i ≡ some (mem_rw_reg_read h i)
  pub fp_is_reg :
      (i : ℕ) (s : FpIntegerIssueStageDebugRegister)
      → get_elem? d.fp_is_reg i ≡ some s
      → get_elem? d'.fp_is_reg i ≡ some (fp_is_reg_read h i)
  pub fp_rr_reg :
      (i : ℕ) (s : FpIntegerRegisterReadStageDebugRegister)
      → get_elem? d.fp_rr_reg i ≡ some s
      → get_elem? d'.fp_rr_reg i ≡ some (fp_rr_reg_read h i)
  pub fp_rw_reg :
      (i : ℕ) (s : FpIntegerRegisterWriteStageDebugRegister)
      → get_elem? d.fp_rw_reg i ≡ some s
      → get_elem? d'.fp_rw_reg i ≡ some (fp_rw_reg_read h i)
  pub cm_reg :
      (i : ℕ) (s : CommitStageDebugRegister)
      → get_elem? d.cm_reg i ≡ some s
      → get_elem? d'.cm_reg i ≡ some (cm_reg_read h i)
  pub scheduler :
      (i : ℕ) (s : SchedulerDebugRegister)
      → get_elem? d.scheduler i ≡ some s
      → get_elem? d'.scheduler i ≡ some (scheduler_read h i)
  pub issue_queue :
      (i : ℕ) (s : IssueQueueDebugRegister)
      → get_elem? d.issue_queue i ≡ some s
      → get_elem? d'.issue_queue i ≡ some (issue_queue_read h i)
  pub to_recovery_phase : d'.to_recovery_phase ≡ h.to_recovery_phase
  pub active_list_head_ptr : d'.active_list_head_ptr ≡ h.active_list_head_ptr
  pub active_list_count : d'.active_list_count ≡ h.active_list_count
  pub stall_by_decode_stage : d'.stall_by_decode_stage ≡ h.stall_by_decode_stage
  pub load_store_unit_allocatable : d'.load_store_unit_allocatable ≡ h.load_store_unit_allocatable
  pub store_committer_phase : d'.store_committer_phase ≡ h.store_committer_phase
  pub store_queue_count : d'.store_queue_count ≡ h.store_queue_count
  pub busy_in_recovery : d'.busy_in_recovery ≡ h.busy_in_recovery
  pub store_queue_empty : d'.store_queue_empty ≡ h.store_queue_empty
  pub np_stage_pipe_ctrl_stall :
      d'.np_stage_pipe_ctrl.stall ≡ h.pipeline_controll_stall h.np_stage_pipe_ctrl
  pub np_stage_pipe_ctrl_clear :
      d'.np_stage_pipe_ctrl.clear ≡ h.pipeline_controll_clear h.np_stage_pipe_ctrl
  pub if_stage_pipe_ctrl_stall :
      d'.if_stage_pipe_ctrl.stall ≡ h.pipeline_controll_stall h.if_stage_pipe_ctrl
  pub if_stage_pipe_ctrl_clear :
      d'.if_stage_pipe_ctrl.clear ≡ h.pipeline_controll_clear h.if_stage_pipe_ctrl
  pub pd_stage_pipe_ctrl_stall :
      d'.pd_stage_pipe_ctrl.stall ≡ h.pipeline_controll_stall h.pd_stage_pipe_ctrl
  pub pd_stage_pipe_ctrl_clear :
      d'.pd_stage_pipe_ctrl.clear ≡ h.pipeline_controll_clear h.pd_stage_pipe_ctrl
  pub id_stage_pipe_ctrl_stall :
      d'.id_stage_pipe_ctrl.stall ≡ h.pipeline_controll_stall h.id_stage_pipe_ctrl
  pub id_stage_pipe_ctrl_clear :
      d'.id_stage_pipe_ctrl.clear ≡ h.pipeline_controll_clear h.id_stage_pipe_ctrl
  pub rn_stage_pipe_ctrl_stall :
      d'.rn_stage_pipe_ctrl.stall ≡ h.pipeline_controll_stall h.rn_stage_pipe_ctrl
  pub rn_stage_pipe_ctrl_clear :
      d'.rn_stage_pipe_ctrl.clear ≡ h.pipeline_controll_clear h.rn_stage_pipe_ctrl
  pub ds_stage_pipe_ctrl_stall :
      d'.ds_stage_pipe_ctrl.stall ≡ h.pipeline_controll_stall h.ds_stage_pipe_ctrl
  pub ds_stage_pipe_ctrl_clear :
      d'.ds_stage_pipe_ctrl.clear ≡ h.pipeline_controll_clear h.ds_stage_pipe_ctrl
  pub back_end_pipe_ctrl_stall :
      d'.back_end_pipe_ctrl.stall ≡ h.pipeline_controll_stall h.back_end_pipe_ctrl
  pub back_end_pipe_ctrl_clear :
      d'.back_end_pipe_ctrl.clear ≡ h.pipeline_controll_clear h.back_end_pipe_ctrl
  pub cm_stage_pipe_ctrl_stall :
      d'.cm_stage_pipe_ctrl.stall ≡ h.pipeline_controll_stall h.cm_stage_pipe_ctrl
  pub cm_stage_pipe_ctrl_clear :
      d'.cm_stage_pipe_ctrl.clear ≡ h.pipeline_controll_clear h.cm_stage_pipe_ctrl
  pub num_ic_miss : d'.perf_counter.num_ic_miss ≡ h.perf_counter_num_ic_miss
  pub num_load_miss : d'.perf_counter.num_load_miss ≡ h.perf_counter_num_load_miss
  pub num_store_miss : d'.perf_counter.num_store_miss ≡ h.perf_counter_num_store_miss
  pub num_store_load_forwarding_fail :
      d'.perf_counter.num_store_load_forwarding_fail ≡ h.perf_counter_num_store_load_forwarding_fail
  pub num_mem_dep_pred_miss :
      d'.perf_counter.num_mem_dep_pred_miss ≡ h.perf_counter_num_mem_dep_pred_miss
  pub num_branch_pred_miss :
      d'.perf_counter.num_branch_pred_miss ≡ h.perf_counter_num_branch_pred_miss
  pub num_branch_pred_miss_detected_on_decode :
      d'.perf_counter.num_branch_pred_miss_detected_on_decode
      ≡ h.perf_counter_num_branch_pred_miss_detected_on_decode
