-- ===== src/Examples/StagesB.antt =====
-- An entry of each of the other stages, for the examples.
use rsd_mp.Common.{true, false, [], ◌∷◌}
use rsd_mp.VerilatorHelper.Stage.{ComplexIntegerRegisterWriteStageDebugRegister}
use rsd_mp.VerilatorHelper.Stage.{MemoryIssueStageDebugRegister}
use rsd_mp.VerilatorHelper.Stage.{MemoryRegisterReadStageDebugRegister}
use rsd_mp.VerilatorHelper.Stage.{MemoryExecutionStageDebugRegister}
use rsd_mp.VerilatorHelper.Stage.{MemoryTagAccessStageDebugRegister}
use rsd_mp.VerilatorHelper.Stage.{MemoryAccessStageDebugRegister}
use rsd_mp.VerilatorHelper.Stage.{MemoryRegisterWriteStageDebugRegister}
use rsd_mp.VerilatorHelper.Stage.{FpIntegerIssueStageDebugRegister}
use rsd_mp.VerilatorHelper.Stage.{FpIntegerRegisterReadStageDebugRegister}
use rsd_mp.VerilatorHelper.Stage.{FpIntegerExecutionStageDebugRegister}
use rsd_mp.VerilatorHelper.Stage.{FpIntegerRegisterWriteStageDebugRegister}
use rsd_mp.VerilatorHelper.Stage.{CommitStageDebugRegister}
use rsd_mp.VerilatorHelper.Stage.{SchedulerDebugRegister}
use rsd_mp.VerilatorHelper.Stage.{IssueQueueDebugRegister}
use rsd_mp.Examples.Base.{op_id}

abbrev pub one_complex_integer_register_write_stage : ComplexIntegerRegisterWriteStageDebugRegister
one_complex_integer_register_write_stage = record { valid = false; flush = true; op_id = op_id }

abbrev pub one_memory_issue_stage : MemoryIssueStageDebugRegister
one_memory_issue_stage = record { valid = false; flush = true; op_id = op_id }

abbrev pub one_memory_register_read_stage : MemoryRegisterReadStageDebugRegister
one_memory_register_read_stage = record { valid = false; flush = true; op_id = op_id }

abbrev pub one_memory_execution_stage : MemoryExecutionStageDebugRegister
one_memory_execution_stage = record {
  valid = false;
  flush = true;
  op_id = op_id;
  addr_out = 4;
  fu_op_a = 5;
  fu_op_b = 6;
  fu_vec_op_b = 7;
  op_type = 8;
  size = 9;
  is_signed = true;
}

abbrev pub one_memory_tag_access_stage : MemoryTagAccessStageDebugRegister
one_memory_tag_access_stage = record {
  valid = false;
  flush = true;
  op_id = op_id;
  execute_load = true;
  executed_load_addr = 5;
  mshr_hit = true;
  mshr_allocated = false;
  mshr_entry_id = 8;
  execute_store = false;
  executed_store_addr = 10;
  executed_store_data = 11;
  executed_store_vector_data = 12;
}

abbrev pub one_memory_access_stage : MemoryAccessStageDebugRegister
one_memory_access_stage = record {
  valid = false;
  flush = true;
  op_id = op_id;
  execute_load = true;
  executed_load_data = 5;
  executed_load_vector_data = 6;
}

abbrev pub one_memory_register_write_stage : MemoryRegisterWriteStageDebugRegister
one_memory_register_write_stage = record { valid = false; flush = true; op_id = op_id }

abbrev pub one_fp_integer_issue_stage : FpIntegerIssueStageDebugRegister
one_fp_integer_issue_stage = record { valid = false; flush = true; op_id = op_id }

abbrev pub one_fp_integer_register_read_stage : FpIntegerRegisterReadStageDebugRegister
one_fp_integer_register_read_stage = record { valid = false; flush = true; op_id = op_id }

abbrev pub one_fp_integer_execution_stage : FpIntegerExecutionStageDebugRegister
one_fp_integer_execution_stage = record {
  valid = true ∷ false ∷ [];
  flush = true;
  op_id = op_id ∷ op_id ∷ [];
  data_out = 4;
  fu_op_a = 5;
  fu_op_b = 6;
  fu_op_c = 7;
}

abbrev pub one_fp_integer_register_write_stage : FpIntegerRegisterWriteStageDebugRegister
one_fp_integer_register_write_stage = record { valid = false; flush = true; op_id = op_id }

abbrev pub one_commit_stage : CommitStageDebugRegister
one_commit_stage = record {
  commit = false;
  flush = true;
  op_id = op_id;
  release_reg = true;
  phy_released_reg = 5;
}

abbrev pub one_scheduler : SchedulerDebugRegister
one_scheduler = record { valid = false }

abbrev pub one_issue_queue : IssueQueueDebugRegister
one_issue_queue = record { flush = false; op_id = op_id }
