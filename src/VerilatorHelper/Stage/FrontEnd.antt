-- ===== src/VerilatorHelper/Stage/FrontEnd.antt =====
-- VerilatorHelper.h: the debug registers of the stages in front of the execution pipelines, of the
-- scheduler and of the commit stage.
use rsd_mp.Common.{ℕ, Bool}
use rsd_mp.VerilatorHelper.Stage.Base.{OpId}

pub record NextPcStageDebugRegister : Type 0 where
  pub valid : Bool
  pub sid : ℕ

pub record FetchStageDebugRegister : Type 0 where
  pub valid : Bool
  pub sid : ℕ
  pub flush : Bool
  pub ic_miss : Bool

pub record PreDecodeStageDebugRegister : Type 0 where
  pub valid : Bool
  pub sid : ℕ
  pub alu_code : ℕ
  pub op_type : ℕ

pub record DecodeStageDebugRegister : Type 0 where
  pub valid : Bool
  pub flushed : Bool
  pub flush_triggering : Bool
  pub op_id : OpId
  pub pc : ℕ
  pub insn : ℕ
  pub undefined : Bool
  pub unsupported : Bool

pub record RenameStageDebugRegister : Type 0 where
  pub valid : Bool
  pub op_id : OpId

pub record DispatchStageDebugRegister : Type 0 where
  pub valid : Bool
  pub op_id : OpId
  pub read_reg_a : Bool
  pub log_src_reg_a : ℕ
  pub phy_src_reg_a : ℕ
  pub read_reg_b : Bool
  pub log_src_reg_b : ℕ
  pub phy_src_reg_b : ℕ
  pub read_reg_c : Bool
  pub log_src_reg_c : ℕ
  pub phy_src_reg_c : ℕ
  pub write_reg : Bool
  pub log_dst_reg : ℕ
  pub phy_dst_reg : ℕ
  pub phy_prev_dst_reg : ℕ
  pub active_list_ptr : ℕ
  pub issue_queue_ptr : ℕ

pub record CommitStageDebugRegister : Type 0 where
  pub commit : Bool
  pub flush : Bool
  pub op_id : OpId
  pub release_reg : Bool
  pub phy_released_reg : ℕ

pub record ActiveListDebugRegister : Type 0 where
  pub finished : Bool
  pub op_id : OpId

pub record SchedulerDebugRegister : Type 0 where
  pub valid : Bool

pub record IssueQueueDebugRegister : Type 0 where
  pub flush : Bool
  pub op_id : OpId
