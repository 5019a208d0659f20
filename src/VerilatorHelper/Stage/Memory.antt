-- ===== src/VerilatorHelper/Stage/Memory.antt =====
-- VerilatorHelper.h: the debug registers of the memory and of the floating-point pipeline.
use rsd_mp.Common.{ℕ, Bool, List}
use rsd_mp.VerilatorHelper.Stage.Base.{OpId}

pub record MemoryIssueStageDebugRegister : Type 0 where
  pub valid : Bool
  pub flush : Bool
  pub op_id : OpId

pub record MemoryRegisterReadStageDebugRegister : Type 0 where
  pub valid : Bool
  pub flush : Bool
  pub op_id : OpId

pub record MemoryExecutionStageDebugRegister : Type 0 where
  pub valid : Bool
  pub flush : Bool
  pub op_id : OpId
  pub addr_out : ℕ
  pub fu_op_a : ℕ
  pub fu_op_b : ℕ
  pub fu_vec_op_b : ℕ
  pub op_type : ℕ
  pub size : ℕ
  pub is_signed : Bool

pub record MemoryTagAccessStageDebugRegister : Type 0 where
  pub valid : Bool
  pub flush : Bool
  pub op_id : OpId
  pub execute_load : Bool
  pub executed_load_addr : ℕ
  pub mshr_hit : Bool
  pub mshr_allocated : Bool
  pub mshr_entry_id : ℕ
  pub execute_store : Bool
  pub executed_store_addr : ℕ
  pub executed_store_data : ℕ
  pub executed_store_vector_data : ℕ

pub record MemoryAccessStageDebugRegister : Type 0 where
  pub valid : Bool
  pub flush : Bool
  pub op_id : OpId
  pub execute_load : Bool
  pub executed_load_data : ℕ
  pub executed_load_vector_data : ℕ

pub record MemoryRegisterWriteStageDebugRegister : Type 0 where
  pub valid : Bool
  pub flush : Bool
  pub op_id : OpId

pub record FpIntegerIssueStageDebugRegister : Type 0 where
  pub valid : Bool
  pub flush : Bool
  pub op_id : OpId

pub record FpIntegerRegisterReadStageDebugRegister : Type 0 where
  pub valid : Bool
  pub flush : Bool
  pub op_id : OpId

pub record FpIntegerExecutionStageDebugRegister : Type 0 where
  pub valid : List Bool
  pub flush : Bool
  pub op_id : List OpId
  pub data_out : ℕ
  pub fu_op_a : ℕ
  pub fu_op_b : ℕ
  pub fu_op_c : ℕ

pub record FpIntegerRegisterWriteStageDebugRegister : Type 0 where
  pub valid : Bool
  pub flush : Bool
  pub op_id : OpId
