-- ===== src/Examples/StagesA.antt =====
-- An entry of each stage of the first half of the debug register, for the examples.
use rsd_mp.Common.{true, false, [], ◌∷◌}
use rsd_mp.VerilatorHelper.Stage.{NextPcStageDebugRegister}
use rsd_mp.VerilatorHelper.Stage.{FetchStageDebugRegister}
use rsd_mp.VerilatorHelper.Stage.{PreDecodeStageDebugRegister}
use rsd_mp.VerilatorHelper.Stage.{DecodeStageDebugRegister}
use rsd_mp.VerilatorHelper.Stage.{RenameStageDebugRegister}
use rsd_mp.VerilatorHelper.Stage.{DispatchStageDebugRegister}
use rsd_mp.VerilatorHelper.Stage.{IntegerIssueStageDebugRegister}
use rsd_mp.VerilatorHelper.Stage.{IntegerRegisterReadStageDebugRegister}
use rsd_mp.VerilatorHelper.Stage.{IntegerExecutionStageDebugRegister}
use rsd_mp.VerilatorHelper.Stage.{IntegerRegisterWriteStageDebugRegister}
use rsd_mp.VerilatorHelper.Stage.{ComplexIntegerIssueStageDebugRegister}
use rsd_mp.VerilatorHelper.Stage.{ComplexIntegerRegisterReadStageDebugRegister}
use rsd_mp.VerilatorHelper.Stage.{ComplexIntegerExecutionStageDebugRegister}
use rsd_mp.Examples.Base.{op_id}

abbrev pub one_next_pc_stage : NextPcStageDebugRegister
one_next_pc_stage = record { valid = false; sid = 2 }

abbrev pub one_fetch_stage : FetchStageDebugRegister
one_fetch_stage = record { valid = false; sid = 2; flush = false; ic_miss = true }

abbrev pub one_pre_decode_stage : PreDecodeStageDebugRegister
one_pre_decode_stage = record { valid = false; sid = 2; alu_code = 3; op_type = 4 }

abbrev pub one_decode_stage : DecodeStageDebugRegister
one_decode_stage = record {
  valid = false;
  flushed = true;
  flush_triggering = false;
  op_id = op_id;
  pc = 5;
  insn = 6;
  undefined = false;
  unsupported = true;
}

abbrev pub one_rename_stage : RenameStageDebugRegister
one_rename_stage = record { valid = false; op_id = op_id }

abbrev pub one_dispatch_stage : DispatchStageDebugRegister
one_dispatch_stage = record {
  valid = false;
  op_id = op_id;
  read_reg_a = false;
  log_src_reg_a = 4;
  phy_src_reg_a = 5;
  read_reg_b = true;
  log_src_reg_b = 7;
  phy_src_reg_b = 8;
  read_reg_c = false;
  log_src_reg_c = 10;
  phy_src_reg_c = 11;
  write_reg = true;
  log_dst_reg = 13;
  phy_dst_reg = 14;
  phy_prev_dst_reg = 15;
  active_list_ptr = 16;
  issue_queue_ptr = 17;
}

abbrev pub one_integer_issue_stage : IntegerIssueStageDebugRegister
one_integer_issue_stage = record { valid = false; flush = true; op_id = op_id }

abbrev pub one_integer_register_read_stage : IntegerRegisterReadStageDebugRegister
one_integer_register_read_stage = record { valid = false; flush = true; op_id = op_id }

abbrev pub one_integer_execution_stage : IntegerExecutionStageDebugRegister
one_integer_execution_stage = record {
  valid = false;
  flush = true;
  op_id = op_id;
  data_out = 4;
  fu_op_a = 5;
  fu_op_b = 6;
  alu_code = 7;
  op_type = 8;
  br_pred_miss = false;
}

abbrev pub one_integer_register_write_stage : IntegerRegisterWriteStageDebugRegister
one_integer_register_write_stage = record { valid = false; flush = true; op_id = op_id }

abbrev pub one_complex_integer_issue_stage : ComplexIntegerIssueStageDebugRegister
one_complex_integer_issue_stage = record { valid = false; flush = true; op_id = op_id }

abbrev pub one_complex_integer_register_read_stage : ComplexIntegerRegisterReadStageDebugRegister
one_complex_integer_register_read_stage = record { valid = false; flush = true; op_id = op_id }

abbrev pub one_complex_integer_execution_stage : ComplexIntegerExecutionStageDebugRegister
one_complex_integer_execution_stage = record {
  valid = true ∷ false ∷ [];
  flush = true;
  op_id = op_id ∷ op_id ∷ [];
  data_out = 4;
  fu_op_a = 5;
  fu_op_b = 6;
  vec_data_out = 7;
  fu_vec_op_a = 8;
  fu_vec_op_b = 9;
}
