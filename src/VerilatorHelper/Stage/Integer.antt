-- ===== src/VerilatorHelper/Stage/Integer.antt =====
-- VerilatorHelper.h: the debug registers of the integer and of the complex integer pipeline.
use rsd_mp.Common.{ℕ, Bool, List}
use rsd_mp.VerilatorHelper.Stage.Base.{OpId}

pub record IntegerIssueStageDebugRegister : Type 0 where
  pub valid : Bool
  pub flush : Bool
  pub op_id : OpId

pub record IntegerRegisterReadStageDebugRegister : Type 0 where
  pub valid : Bool
  pub flush : Bool
  pub op_id : OpId

pub record IntegerExecutionStageDebugRegister : Type 0 where
  pub valid : Bool
  pub flush : Bool
  pub op_id : OpId
  pub data_out : ℕ
  pub fu_op_a : ℕ
  pub fu_op_b : ℕ
  pub alu_code : ℕ
  pub op_type : ℕ
  pub br_pred_miss : Bool

pub record IntegerRegisterWriteStageDebugRegister : Type 0 where
  pub valid : Bool
  pub flush : Bool
  pub op_id : OpId

pub record ComplexIntegerIssueStageDebugRegister : Type 0 where
  pub valid : Bool
  pub flush : Bool
  pub op_id : OpId

pub record ComplexIntegerRegisterReadStageDebugRegister : Type 0 where
  pub valid : Bool
  pub flush : Bool
  pub op_id : OpId

pub record ComplexIntegerExecutionStageDebugRegister : Type 0 where
  pub valid : List Bool
  pub flush : Bool
  pub op_id : List OpId
  pub data_out : ℕ
  pub fu_op_a : ℕ
  pub fu_op_b : ℕ
  pub vec_data_out : ℕ
  pub fu_vec_op_a : ℕ
  pub fu_vec_op_b : ℕ

pub record ComplexIntegerRegisterWriteStageDebugRegister : Type 0 where
  pub valid : Bool
  pub flush : Bool
  pub op_id : OpId
