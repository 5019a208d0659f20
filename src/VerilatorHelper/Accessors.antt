-- ===== src/VerilatorHelper/Accessors.antt =====
-- The functions by which the test bench reads the packed structs of the core. They are generated from
-- VerilatorHelper.sv: `DebugRegister_<stage>_<member>(r, i)` is member `member` of entry `i` of stage
-- `stage` in the debug register `r` of the core, which is fixed here. A packed struct is a number.
use rsd_mp.Common.{ℕ, Bool}

pub record Accessors : Type 0 where
  pub op_id_sid : ℕ → ℕ
  pub op_id_mid : ℕ → ℕ
  pub pipeline_controll_stall : ℕ → Bool
  pub pipeline_controll_clear : ℕ → Bool
  pub np_reg_valid : ℕ → Bool
  pub np_reg_sid : ℕ → ℕ
  pub if_reg_valid : ℕ → Bool
  pub if_reg_sid : ℕ → ℕ
  pub if_reg_flush : ℕ → Bool
  pub if_reg_ic_miss : ℕ → Bool
  pub pd_reg_valid : ℕ → Bool
  pub pd_reg_sid : ℕ → ℕ
  pub pd_reg_alu_code : ℕ → ℕ
  pub pd_reg_op_type : ℕ → ℕ
  pub id_reg_valid : ℕ → Bool
  pub id_reg_flushed : ℕ → Bool
  pub id_reg_flush_triggering : ℕ → Bool
  pub id_reg_op_id : ℕ → ℕ
  pub id_reg_pc : ℕ → ℕ
  pub id_reg_insn : ℕ → ℕ
  pub id_reg_undefined : ℕ → Bool
  pub id_reg_unsupported : ℕ → Bool
  pub rn_reg_valid : ℕ → Bool
  pub rn_reg_op_id : ℕ → ℕ
  pub ds_reg_valid : ℕ → Bool
  pub ds_reg_op_id : ℕ → ℕ
  pub ds_reg_read_reg_a : ℕ → Bool
  pub ds_reg_log_src_reg_a : ℕ → ℕ
  pub ds_reg_phy_src_reg_a : ℕ → ℕ
  pub ds_reg_read_reg_b : ℕ → Bool
  pub ds_reg_log_src_reg_b : ℕ → ℕ
  pub ds_reg_phy_src_reg_b : ℕ → ℕ
  pub ds_reg_read_reg_c : ℕ → Bool
  pub ds_reg_log_src_reg_c : ℕ → ℕ
  pub ds_reg_phy_src_reg_c : ℕ → ℕ
  pub ds_reg_write_reg : ℕ → Bool
  pub ds_reg_log_dst_reg : ℕ → ℕ
  pub ds_reg_phy_dst_reg : ℕ → ℕ
  pub ds_reg_phy_prev_dst_reg : ℕ → ℕ
  pub ds_reg_active_list_ptr : ℕ → ℕ
  pub ds_reg_issue_queue_ptr : ℕ → ℕ
  pub int_is_reg_valid : ℕ → Bool
  pub int_is_reg_flush : ℕ → Bool
  pub int_is_reg_op_id : ℕ → ℕ
  pub int_rr_reg_valid : ℕ → Bool
  pub int_rr_reg_flush : ℕ → Bool
  pub int_rr_reg_op_id : ℕ → ℕ
  pub int_ex_reg_valid : ℕ → Bool
  pub int_ex_reg_flush : ℕ → Bool
  pub int_ex_reg_op_id : ℕ → ℕ
  pub int_ex_reg_data_out : ℕ → ℕ
  pub int_ex_reg_fu_op_a : ℕ → ℕ
  pub int_ex_reg_fu_op_b : ℕ → ℕ
  pub int_ex_reg_alu_code : ℕ → ℕ
  pub int_ex_reg_op_type : ℕ → ℕ
  pub int_ex_reg_br_pred_miss : ℕ → Bool
  pub int_rw_reg_valid : ℕ → Bool
  pub int_rw_reg_flush : ℕ → Bool
  pub int_rw_reg_op_id : ℕ → ℕ
  pub complex_is_reg_valid : ℕ → Bool
  pub complex_is_reg_flush : ℕ → Bool
  pub complex_is_reg_op_id : ℕ → ℕ
  pub complex_rr_reg_valid : ℕ → Bool
  pub complex_rr_reg_flush : ℕ → Bool
  pub complex_rr_reg_op_id : ℕ → ℕ
  pub complex_ex_reg_valid : ℕ → Bool
  pub complex_ex_reg_op_id : ℕ → ℕ
  pub complex_ex_reg_flush : ℕ → Bool
  pub complex_ex_reg_data_out : ℕ → ℕ
  pub complex_ex_reg_fu_op_a : ℕ → ℕ
  pub complex_ex_reg_fu_op_b : ℕ → ℕ
  pub complex_rw_reg_valid : ℕ → Bool
  pub complex_rw_reg_flush : ℕ → Bool
  pub complex_rw_reg_op_id : ℕ → ℕ
  pub mem_is_reg_valid : ℕ → Bool
  pub mem_is_reg_flush : ℕ → Bool
  pub mem_is_reg_op_id : ℕ → ℕ
  pub mem_rr_reg_valid : ℕ → Bool
  pub mem_rr_reg_flush : ℕ → Bool
  pub mem_rr_reg_op_id : ℕ → ℕ
  pub mem_ex_reg_valid : ℕ → Bool
  pub mem_ex_reg_flush : ℕ → Bool
  pub mem_ex_reg_op_id : ℕ → ℕ
  pub mem_ex_reg_addr_out : ℕ → ℕ
  pub mem_ex_reg_fu_op_a : ℕ → ℕ
  pub mem_ex_reg_fu_op_b : ℕ → ℕ
  pub mem_ex_reg_op_type : ℕ → ℕ
  pub mem_ex_reg_size : ℕ → ℕ
  pub mem_ex_reg_is_signed : ℕ → Bool
  pub mt_reg_valid : ℕ → Bool
  pub mt_reg_flush : ℕ → Bool
  pub mt_reg_op_id : ℕ → ℕ
  pub mt_reg_execute_load : ℕ → Bool
  pub mt_reg_executed_load_addr : ℕ → ℕ
  pub mt_reg_mshr_allocated : ℕ → Bool
  pub mt_reg_mshr_hit : ℕ → Bool
  pub mt_reg_mshr_entry_id : ℕ → ℕ
  pub mt_reg_execute_store : ℕ → Bool
  pub mt_reg_executed_store_addr : ℕ → ℕ
  pub mt_reg_executed_store_data : ℕ → ℕ
  pub ma_reg_valid : ℕ → Bool
  pub ma_reg_flush : ℕ → Bool
  pub ma_reg_op_id : ℕ → ℕ
  pub ma_reg_execute_load : ℕ → Bool
  pub ma_reg_executed_load_data : ℕ → ℕ
  pub mem_rw_reg_valid : ℕ → Bool
  pub mem_rw_reg_flush : ℕ → Bool
  pub mem_rw_reg_op_id : ℕ → ℕ
  pub fp_is_reg_valid : ℕ → Bool
  pub fp_is_reg_flush : ℕ → Bool
  pub fp_is_reg_op_id : ℕ → ℕ
  pub fp_rr_reg_valid : ℕ → Bool
  pub fp_rr_reg_flush : ℕ → Bool
  pub fp_rr_reg_op_id : ℕ → ℕ
  pub fp_ex_reg_valid : ℕ → Bool
  pub fp_ex_reg_op_id : ℕ → ℕ
  pub fp_ex_reg_flush : ℕ → Bool
  pub fp_ex_reg_data_out : ℕ → ℕ
  pub fp_ex_reg_fu_op_a : ℕ → ℕ
  pub fp_ex_reg_fu_op_b : ℕ → ℕ
  pub fp_ex_reg_fu_op_c : ℕ → ℕ
  pub fp_rw_reg_valid : ℕ → Bool
  pub fp_rw_reg_flush : ℕ → Bool
  pub fp_rw_reg_op_id : ℕ → ℕ
  pub cm_reg_commit : ℕ → Bool
  pub cm_reg_flush : ℕ → Bool
  pub cm_reg_op_id : ℕ → ℕ
  pub cm_reg_release_reg : ℕ → Bool
  pub cm_reg_phy_released_reg : ℕ → ℕ
  pub scheduler_valid : ℕ → Bool
  pub issue_queue_flush : ℕ → Bool
  pub issue_queue_op_id : ℕ → ℕ
  pub to_recovery_phase : Bool
  pub active_list_head_ptr : ℕ
  pub active_list_count : ℕ
  pub stall_by_decode_stage : Bool
  pub load_store_unit_allocatable : Bool
  pub store_committer_phase : Bool
  pub store_queue_count : ℕ
  pub busy_in_recovery : Bool
  pub store_queue_empty : Bool
  pub np_stage_pipe_ctrl : ℕ
  pub if_stage_pipe_ctrl : ℕ
  pub pd_stage_pipe_ctrl : ℕ
  pub id_stage_pipe_ctrl : ℕ
  pub rn_stage_pipe_ctrl : ℕ
  pub ds_stage_pipe_ctrl : ℕ
  pub back_end_pipe_ctrl : ℕ
  pub cm_stage_pipe_ctrl : ℕ
  pub perf_counter_num_ic_miss : ℕ
  pub perf_counter_num_load_miss : ℕ
  pub perf_counter_num_store_miss : ℕ
  pub perf_counter_num_store_load_forwarding_fail : ℕ
  pub perf_counter_num_mem_dep_pred_miss : ℕ
  pub perf_counter_num_branch_pred_miss : ℕ
  pub perf_counter_num_branch_pred_miss_detected_on_decode : ℕ
