-- ===== src/VerilatorHelper/Register.antt =====
-- VerilatorHelper.h: the debug register of the whole core. An array of the source is a list.
use rsd_mp.Common.{ℕ, Bool, List}
use rsd_mp.VerilatorHelper.Stage.{CommitStageDebugRegister}
use rsd_mp.VerilatorHelper.Stage.{ComplexIntegerExecutionStageDebugRegister}
use rsd_mp.VerilatorHelper.Stage.{ComplexIntegerIssueStageDebugRegister}
use rsd_mp.VerilatorHelper.Stage.{ComplexIntegerRegisterReadStageDebugRegister}
use rsd_mp.VerilatorHelper.Stage.{ComplexIntegerRegisterWriteStageDebugRegister}
use rsd_mp.VerilatorHelper.Stage.{DecodeStageDebugRegister, DispatchStageDebugRegister}
use rsd_mp.VerilatorHelper.Stage.{FetchStageDebugRegister, FpIntegerExecutionStageDebugRegister}
use rsd_mp.VerilatorHelper.Stage.{FpIntegerIssueStageDebugRegister}
use rsd_mp.VerilatorHelper.Stage.{FpIntegerRegisterReadStageDebugRegister}
use rsd_mp.VerilatorHelper.Stage.{FpIntegerRegisterWriteStageDebugRegister}
use rsd_mp.VerilatorHelper.Stage.{IntegerExecutionStageDebugRegister}
use rsd_mp.VerilatorHelper.Stage.{IntegerIssueStageDebugRegister}
use rsd_mp.VerilatorHelper.Stage.{IntegerRegisterReadStageDebugRegister}
use rsd_mp.VerilatorHelper.Stage.{IntegerRegisterWriteStageDebugRegister, IssueQueueDebugRegister}
use rsd_mp.VerilatorHelper.Stage.{MemoryAccessStageDebugRegister}
use rsd_mp.VerilatorHelper.Stage.{MemoryExecutionStageDebugRegister}
use rsd_mp.VerilatorHelper.Stage.{MemoryIssueStageDebugRegister}
use rsd_mp.VerilatorHelper.Stage.{MemoryRegisterReadStageDebugRegister}
use rsd_mp.VerilatorHelper.Stage.{MemoryRegisterWriteStageDebugRegister}
use rsd_mp.VerilatorHelper.Stage.{MemoryTagAccessStageDebugRegister, NextPcStageDebugRegister}
use rsd_mp.VerilatorHelper.Stage.{PreDecodeStageDebugRegister, RenameStageDebugRegister}
use rsd_mp.VerilatorHelper.Stage.{SchedulerDebugRegister, PipelineControll}

pub record PerfCounterPath : Type 0 where
  pub num_ic_miss : ℕ
  pub num_load_miss : ℕ
  pub num_store_miss : ℕ
  pub num_store_load_forwarding_fail : ℕ
  pub num_mem_dep_pred_miss : ℕ
  pub num_branch_pred_miss : ℕ
  pub num_branch_pred_miss_detected_on_decode : ℕ

pub record DebugRegister : Type 0 where
  pub np_reg : List NextPcStageDebugRegister
  pub if_reg : List FetchStageDebugRegister
  pub pd_reg : List PreDecodeStageDebugRegister
  pub id_reg : List DecodeStageDebugRegister
  pub rn_reg : List RenameStageDebugRegister
  pub ds_reg : List DispatchStageDebugRegister
  pub int_is_reg : List IntegerIssueStageDebugRegister
  pub int_rr_reg : List IntegerRegisterReadStageDebugRegister
  pub int_ex_reg : List IntegerExecutionStageDebugRegister
  pub int_rw_reg : List IntegerRegisterWriteStageDebugRegister
  pub complex_is_reg : List ComplexIntegerIssueStageDebugRegister
  pub complex_rr_reg : List ComplexIntegerRegisterReadStageDebugRegister
  pub complex_ex_reg : List ComplexIntegerExecutionStageDebugRegister
  pub complex_rw_reg : List ComplexIntegerRegisterWriteStageDebugRegister
  pub mem_is_reg : List MemoryIssueStageDebugRegister
  pub mem_rr_reg : List MemoryRegisterReadStageDebugRegister
  pub mem_ex_reg : List MemoryExecutionStageDebugRegister
  pub mt_reg : List MemoryTagAccessStageDebugRegister
  pub ma_reg : List MemoryAccessStageDebugRegister
  pub mem_rw_reg : List MemoryRegisterWriteStageDebugRegister
  pub fp_is_reg : List FpIntegerIssueStageDebugRegister
  pub fp_rr_reg : List FpIntegerRegisterReadStageDebugRegister
  pub fp_ex_reg : List FpIntegerExecutionStageDebugRegister
  pub fp_rw_reg : List FpIntegerRegisterWriteStageDebugRegister
  pub cm_reg : List CommitStageDebugRegister
  pub scheduler : List SchedulerDebugRegister
  pub issue_queue : List IssueQueueDebugRegister
  pub to_recovery_phase : Bool
  pub active_list_head_ptr : ℕ
  pub active_list_count : ℕ
  pub np_stage_pipe_ctrl : PipelineControll
  pub if_stage_pipe_ctrl : PipelineControll
  pub pd_stage_pipe_ctrl : PipelineControll
  pub id_stage_pipe_ctrl : PipelineControll
  pub rn_stage_pipe_ctrl : PipelineControll
  pub ds_stage_pipe_ctrl : PipelineControll
  pub back_end_pipe_ctrl : PipelineControll
  pub cm_stage_pipe_ctrl : PipelineControll
  pub stall_by_decode_stage : Bool
  pub load_store_unit_allocatable : Bool
  pub store_committer_phase : Bool
  pub store_queue_count : ℕ
  pub busy_in_recovery : Bool
  pub store_queue_empty : Bool
  pub perf_counter : PerfCounterPath
