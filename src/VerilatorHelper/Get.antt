-- ===== src/VerilatorHelper/Get.antt =====
-- VerilatorHelper.h, `GetDebugRegister`: the test bench reads the debug register of the core.
mod Base
mod FrontEnd
mod Integer
mod Memory
mod FloatingPoint
unfoldable pub use Base.*
unfoldable pub use FrontEnd.*
unfoldable pub use Integer.*
unfoldable pub use Memory.*
unfoldable pub use FloatingPoint.*
use rsd_mp.Common.{ℕ}
use rsd_mp.VerilatorHelper.Stage.{PipelineControll}
use rsd_mp.VerilatorHelper.Register.{DebugRegister, PerfCounterPath}
use rsd_mp.VerilatorHelper.Accessors.{Accessors}

get_pipeline_controll : Accessors → ℕ → PipelineControll
get_pipeline_controll h raw = record {
  stall = h.pipeline_controll_stall raw;
  clear = h.pipeline_controll_clear raw;
}

get_perf_counter : Accessors → PerfCounterPath
get_perf_counter h = record {
  num_ic_miss = h.perf_counter_num_ic_miss;
  num_load_miss = h.perf_counter_num_load_miss;
  num_store_miss = h.perf_counter_num_store_miss;
  num_store_load_forwarding_fail = h.perf_counter_num_store_load_forwarding_fail;
  num_mem_dep_pred_miss = h.perf_counter_num_mem_dep_pred_miss;
  num_branch_pred_miss = h.perf_counter_num_branch_pred_miss;
  num_branch_pred_miss_detected_on_decode = h.perf_counter_num_branch_pred_miss_detected_on_decode;
}

-- With RSD_FUNCTIONAL_SIMULATION and RSD_MARCH_FP_PIPE defined, as Makefile.verilator.mk does.
unfoldable pub get_debug_register : Accessors → DebugRegister → DebugRegister
unfolding get_pipeline_controll get_perf_counter
get_debug_register h d = record {
  np_reg = get_np_reg h d.np_reg;
  if_reg = get_if_reg h d.if_reg;
  pd_reg = get_pd_reg h d.pd_reg;
  id_reg = get_id_reg h d.id_reg;
  rn_reg = get_rn_reg h d.rn_reg;
  ds_reg = get_ds_reg h d.ds_reg;
  int_is_reg = get_int_is_reg h d.int_is_reg;
  int_rr_reg = get_int_rr_reg h d.int_rr_reg;
  int_ex_reg = get_int_ex_reg h d.int_ex_reg;
  int_rw_reg = get_int_rw_reg h d.int_rw_reg;
  complex_is_reg = get_complex_is_reg h d.complex_is_reg;
  complex_rr_reg = get_complex_rr_reg h d.complex_rr_reg;
  complex_ex_reg = get_complex_ex_reg h d.complex_ex_reg;
  complex_rw_reg = get_complex_rw_reg h d.complex_rw_reg;
  mem_is_reg = get_mem_is_reg h d.mem_is_reg;
  mem_rr_reg = get_mem_rr_reg h d.mem_rr_reg;
  mem_ex_reg = get_mem_ex_reg h d.mem_ex_reg;
  mt_reg = get_mt_reg h d.mt_reg;
  ma_reg = get_ma_reg h d.ma_reg;
  mem_rw_reg = get_mem_rw_reg h d.mem_rw_reg;
  fp_is_reg = get_fp_is_reg h d.fp_is_reg;
  fp_rr_reg = get_fp_rr_reg h d.fp_rr_reg;
  fp_ex_reg = get_fp_ex_reg h d.fp_ex_reg;
  fp_rw_reg = get_fp_rw_reg h d.fp_rw_reg;
  cm_reg = get_cm_reg h d.cm_reg;
  scheduler = get_scheduler h d.scheduler;
  issue_queue = get_issue_queue h d.issue_queue;
  to_recovery_phase = h.to_recovery_phase;
  active_list_head_ptr = h.active_list_head_ptr;
  active_list_count = h.active_list_count;
  stall_by_decode_stage = h.stall_by_decode_stage;
  load_store_unit_allocatable = h.load_store_unit_allocatable;
  store_committer_phase = h.store_committer_phase;
  store_queue_count = h.store_queue_count;
  busy_in_recovery = h.busy_in_recovery;
  store_queue_empty = h.store_queue_empty;
  np_stage_pipe_ctrl = get_pipeline_controll h h.np_stage_pipe_ctrl;
  if_stage_pipe_ctrl = get_pipeline_controll h h.if_stage_pipe_ctrl;
  pd_stage_pipe_ctrl = get_pipeline_controll h h.pd_stage_pipe_ctrl;
  id_stage_pipe_ctrl = get_pipeline_controll h h.id_stage_pipe_ctrl;
  rn_stage_pipe_ctrl = get_pipeline_controll h h.rn_stage_pipe_ctrl;
  ds_stage_pipe_ctrl = get_pipeline_controll h h.ds_stage_pipe_ctrl;
  back_end_pipe_ctrl = get_pipeline_controll h h.back_end_pipe_ctrl;
  cm_stage_pipe_ctrl = get_pipeline_controll h h.cm_stage_pipe_ctrl;
  perf_counter = get_perf_counter h;
}
