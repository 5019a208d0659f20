-- ===== src/VerilatorHelper/Stage/Base.antt =====
-- VerilatorHelper.h: the identity of an operation and the control signals of a stage.
use rsd_mp.Common.{ℕ, Bool}

pub record OpId : Type 0 where
  pub sid : ℕ
  pub mid : ℕ

pub record PipelineControll : Type 0 where
  pub stall : Bool
  pub clear : Bool
