-- ===== src/Examples/Registers.antt =====
-- A debug register with an entry for every stage, for the examples.
use rsd_mp.Common.{true, false, [], ◌∷◌}
use rsd_mp.VerilatorHelper.Register.{DebugRegister, PerfCounterPath}
use rsd_mp.VerilatorHelper.Stage.{PipelineControll}
use rsd_mp.Examples.StagesA.{
  one_next_pc_stage, one_fetch_stage, one_pre_decode_stage, one_decode_stage, one_rename_stage,
  one_dispatch_stage, one_integer_issue_stage, one_integer_register_read_stage,
  one_integer_execution_stage, one_integer_register_write_stage, one_complex_integer_issue_stage,
  one_complex_integer_register_read_stage, one_complex_integer_execution_stage,
}
use rsd_mp.Examples.StagesB.{
  one_complex_integer_register_write_stage, one_memory_issue_stage, one_memory_register_read_stage,
  one_memory_execution_stage, one_memory_tag_access_stage, one_memory_access_stage,
  one_memory_register_write_stage, one_fp_integer_issue_stage, one_fp_integer_register_read_stage,
  one_fp_integer_execution_stage, one_fp_integer_register_write_stage, one_commit_stage,
  one_scheduler, one_issue_queue,
}

abbrev pipeline_controll : PipelineControll
pipeline_controll = record { stall = false; clear = true }

abbrev perf_counter : PerfCounterPath
perf_counter = record {
  num_ic_miss = 1;
  num_load_miss = 2;
  num_store_miss = 3;
  num_store_load_forwarding_fail = 4;
  num_mem_dep_pred_miss = 5;
  num_branch_pred_miss = 6;
  num_branch_pred_miss_detected_on_decode = 7;
}

abbrev pub registers : DebugRegister
registers = record {
  np_reg = one_next_pc_stage ∷ [];
  if_reg = one_fetch_stage ∷ [];
  pd_reg = one_pre_decode_stage ∷ [];
  id_reg = one_decode_stage ∷ [];
  rn_reg = one_rename_stage ∷ [];
  ds_reg = one_dispatch_stage ∷ [];
  int_is_reg = one_integer_issue_stage ∷ [];
  int_rr_reg = one_integer_register_read_stage ∷ [];
  int_ex_reg = one_integer_execution_stage ∷ [];
  int_rw_reg = one_integer_register_write_stage ∷ [];
  complex_is_reg = one_complex_integer_issue_stage ∷ [];
  complex_rr_reg = one_complex_integer_register_read_stage ∷ [];
  complex_ex_reg = one_complex_integer_execution_stage ∷ [];
  complex_rw_reg = one_complex_integer_register_write_stage ∷ [];
  mem_is_reg = one_memory_issue_stage ∷ [];
  mem_rr_reg = one_memory_register_read_stage ∷ [];
  mem_ex_reg = one_memory_execution_stage ∷ [];
  mt_reg = one_memory_tag_access_stage ∷ [];
  ma_reg = one_memory_access_stage ∷ [];
  mem_rw_reg = one_memory_register_write_stage ∷ [];
  fp_is_reg = one_fp_integer_issue_stage ∷ [];
  fp_rr_reg = one_fp_integer_register_read_stage ∷ [];
  fp_ex_reg = one_fp_integer_execution_stage ∷ [];
  fp_rw_reg = one_fp_integer_register_write_stage ∷ [];
  cm_reg = one_commit_stage ∷ [];
  scheduler = one_scheduler ∷ [];
  issue_queue = one_issue_queue ∷ [];
  to_recovery_phase = true;
  active_list_head_ptr = 29;
  active_list_count = 30;
  np_stage_pipe_ctrl = pipeline_controll;
  if_stage_pipe_ctrl = pipeline_controll;
  pd_stage_pipe_ctrl = pipeline_controll;
  id_stage_pipe_ctrl = pipeline_controll;
  rn_stage_pipe_ctrl = pipeline_controll;
  ds_stage_pipe_ctrl = pipeline_controll;
  back_end_pipe_ctrl = pipeline_controll;
  cm_stage_pipe_ctrl = pipeline_controll;
  stall_by_decode_stage = false;
  load_store_unit_allocatable = true;
  store_committer_phase = false;
  store_queue_count = 42;
  busy_in_recovery = false;
  store_queue_empty = true;
  perf_counter = perf_counter;
}
