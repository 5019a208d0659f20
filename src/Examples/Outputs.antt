-- ===== src/Examples/Outputs.antt =====
-- A core to read, for the examples. Entry `i` of a member has a value that depends on the member
-- and on `i`.
use rsd_mp.Common.{◌+◌, ◌*◌, true, false, ◌==◌}
use rsd_mp.VerilatorHelper.Accessors.{Accessors}

abbrev pub core : Accessors
core = record {
  op_id_sid = λ i. 1 + 1000 * i;
  op_id_mid = λ i. 2 + 1000 * i;
  pipeline_controll_stall = λ i. i == 0;
  pipeline_controll_clear = λ i. i == 1;
  np_reg_valid = λ i. i == 0;
  np_reg_sid = λ i. 6 + 1000 * i;
  if_reg_valid = λ i. i == 0;
  if_reg_sid = λ i. 8 + 1000 * i;
  if_reg_flush = λ i. i == 0;
  if_reg_ic_miss = λ i. i == 1;
  pd_reg_valid = λ i. i == 0;
  pd_reg_sid = λ i. 12 + 1000 * i;
  pd_reg_alu_code = λ i. 13 + 1000 * i;
  pd_reg_op_type = λ i. 14 + 1000 * i;
  id_reg_valid = λ i. i == 0;
  id_reg_flushed = λ i. i == 1;
  id_reg_flush_triggering = λ i. i == 0;
  id_reg_op_id = λ i. 18 + 1000 * i;
  id_reg_pc = λ i. 19 + 1000 * i;
  id_reg_insn = λ i. 20 + 1000 * i;
  id_reg_undefined = λ i. i == 0;
  id_reg_unsupported = λ i. i == 1;
  rn_reg_valid = λ i. i == 0;
  rn_reg_op_id = λ i. 24 + 1000 * i;
  ds_reg_valid = λ i. i == 0;
  ds_reg_op_id = λ i. 26 + 1000 * i;
  ds_reg_read_reg_a = λ i. i == 0;
  ds_reg_log_src_reg_a = λ i. 28 + 1000 * i;
  ds_reg_phy_src_reg_a = λ i. 29 + 1000 * i;
  ds_reg_read_reg_b = λ i. i == 1;
  ds_reg_log_src_reg_b = λ i. 31 + 1000 * i;
  ds_reg_phy_src_reg_b = λ i. 32 + 1000 * i;
  ds_reg_read_reg_c = λ i. i == 0;
  ds_reg_log_src_reg_c = λ i. 34 + 1000 * i;
  ds_reg_phy_src_reg_c = λ i. 35 + 1000 * i;
  ds_reg_write_reg = λ i. i == 1;
  ds_reg_log_dst_reg = λ i. 37 + 1000 * i;
  ds_reg_phy_dst_reg = λ i. 38 + 1000 * i;
  ds_reg_phy_prev_dst_reg = λ i. 39 + 1000 * i;
  ds_reg_active_list_ptr = λ i. 40 + 1000 * i;
  ds_reg_issue_queue_ptr = λ i. 41 + 1000 * i;
  int_is_reg_valid = λ i. i == 1;
  int_is_reg_flush = λ i. i == 0;
  int_is_reg_op_id = λ i. 44 + 1000 * i;
  int_rr_reg_valid = λ i. i == 0;
  int_rr_reg_flush = λ i. i == 1;
  int_rr_reg_op_id = λ i. 47 + 1000 * i;
  int_ex_reg_valid = λ i. i == 1;
  int_ex_reg_flush = λ i. i == 0;
  int_ex_reg_op_id = λ i. 50 + 1000 * i;
  int_ex_reg_data_out = λ i. 51 + 1000 * i;
  int_ex_reg_fu_op_a = λ i. 52 + 1000 * i;
  int_ex_reg_fu_op_b = λ i. 53 + 1000 * i;
  int_ex_reg_alu_code = λ i. 54 + 1000 * i;
  int_ex_reg_op_type = λ i. 55 + 1000 * i;
  int_ex_reg_br_pred_miss = λ i. i == 1;
  int_rw_reg_valid = λ i. i == 0;
  int_rw_reg_flush = λ i. i == 1;
  int_rw_reg_op_id = λ i. 59 + 1000 * i;
  complex_is_reg_valid = λ i. i == 1;
  complex_is_reg_flush = λ i. i == 0;
  complex_is_reg_op_id = λ i. 62 + 1000 * i;
  complex_rr_reg_valid = λ i. i == 0;
  complex_rr_reg_flush = λ i. i == 1;
  complex_rr_reg_op_id = λ i. 65 + 1000 * i;
  complex_ex_reg_valid = λ i. i == 1;
  complex_ex_reg_op_id = λ i. 67 + 1000 * i;
  complex_ex_reg_flush = λ i. i == 1;
  complex_ex_reg_data_out = λ i. 69 + 1000 * i;
  complex_ex_reg_fu_op_a = λ i. 70 + 1000 * i;
  complex_ex_reg_fu_op_b = λ i. 71 + 1000 * i;
  complex_rw_reg_valid = λ i. i == 1;
  complex_rw_reg_flush = λ i. i == 0;
  complex_rw_reg_op_id = λ i. 74 + 1000 * i;
  mem_is_reg_valid = λ i. i == 0;
  mem_is_reg_flush = λ i. i == 1;
  mem_is_reg_op_id = λ i. 77 + 1000 * i;
  mem_rr_reg_valid = λ i. i == 1;
  mem_rr_reg_flush = λ i. i == 0;
  mem_rr_reg_op_id = λ i. 80 + 1000 * i;
  mem_ex_reg_valid = λ i. i == 0;
  mem_ex_reg_flush = λ i. i == 1;
  mem_ex_reg_op_id = λ i. 83 + 1000 * i;
  mem_ex_reg_addr_out = λ i. 84 + 1000 * i;
  mem_ex_reg_fu_op_a = λ i. 85 + 1000 * i;
  mem_ex_reg_fu_op_b = λ i. 86 + 1000 * i;
  mem_ex_reg_op_type = λ i. 87 + 1000 * i;
  mem_ex_reg_size = λ i. 88 + 1000 * i;
  mem_ex_reg_is_signed = λ i. i == 0;
  mt_reg_valid = λ i. i == 1;
  mt_reg_flush = λ i. i == 0;
  mt_reg_op_id = λ i. 92 + 1000 * i;
  mt_reg_execute_load = λ i. i == 0;
  mt_reg_executed_load_addr = λ i. 94 + 1000 * i;
  mt_reg_mshr_allocated = λ i. i == 0;
  mt_reg_mshr_hit = λ i. i == 1;
  mt_reg_mshr_entry_id = λ i. 97 + 1000 * i;
  mt_reg_execute_store = λ i. i == 1;
  mt_reg_executed_store_addr = λ i. 99 + 1000 * i;
  mt_reg_executed_store_data = λ i. 100 + 1000 * i;
  ma_reg_valid = λ i. i == 0;
  ma_reg_flush = λ i. i == 1;
  ma_reg_op_id = λ i. 103 + 1000 * i;
  ma_reg_execute_load = λ i. i == 1;
  ma_reg_executed_load_data = λ i. 105 + 1000 * i;
  mem_rw_reg_valid = λ i. i == 1;
  mem_rw_reg_flush = λ i. i == 0;
  mem_rw_reg_op_id = λ i. 108 + 1000 * i;
  fp_is_reg_valid = λ i. i == 0;
  fp_is_reg_flush = λ i. i == 1;
  fp_is_reg_op_id = λ i. 111 + 1000 * i;
  fp_rr_reg_valid = λ i. i == 1;
  fp_rr_reg_flush = λ i. i == 0;
  fp_rr_reg_op_id = λ i. 114 + 1000 * i;
  fp_ex_reg_valid = λ i. i == 0;
  fp_ex_reg_op_id = λ i. 116 + 1000 * i;
  fp_ex_reg_flush = λ i. i == 0;
  fp_ex_reg_data_out = λ i. 118 + 1000 * i;
  fp_ex_reg_fu_op_a = λ i. 119 + 1000 * i;
  fp_ex_reg_fu_op_b = λ i. 120 + 1000 * i;
  fp_ex_reg_fu_op_c = λ i. 121 + 1000 * i;
  fp_rw_reg_valid = λ i. i == 1;
  fp_rw_reg_flush = λ i. i == 0;
  fp_rw_reg_op_id = λ i. 124 + 1000 * i;
  cm_reg_commit = λ i. i == 0;
  cm_reg_flush = λ i. i == 1;
  cm_reg_op_id = λ i. 127 + 1000 * i;
  cm_reg_release_reg = λ i. i == 1;
  cm_reg_phy_released_reg = λ i. 129 + 1000 * i;
  scheduler_valid = λ i. i == 1;
  issue_queue_flush = λ i. i == 0;
  issue_queue_op_id = λ i. 132 + 1000 * i;
  to_recovery_phase = true;
  active_list_head_ptr = 134;
  active_list_count = 135;
  stall_by_decode_stage = false;
  load_store_unit_allocatable = true;
  store_committer_phase = false;
  store_queue_count = 139;
  busy_in_recovery = false;
  store_queue_empty = true;
  np_stage_pipe_ctrl = 142;
  if_stage_pipe_ctrl = 143;
  pd_stage_pipe_ctrl = 144;
  id_stage_pipe_ctrl = 145;
  rn_stage_pipe_ctrl = 146;
  ds_stage_pipe_ctrl = 147;
  back_end_pipe_ctrl = 148;
  cm_stage_pipe_ctrl = 149;
  perf_counter_num_ic_miss = 150;
  perf_counter_num_load_miss = 151;
  perf_counter_num_store_miss = 152;
  perf_counter_num_store_load_forwarding_fail = 153;
  perf_counter_num_mem_dep_pred_miss = 154;
  perf_counter_num_branch_pred_miss = 155;
  perf_counter_num_branch_pred_miss_detected_on_decode = 156;
}
