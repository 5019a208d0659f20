-- ===== src/VerilatorHelper/Laws.antt =====
-- `GetDebugRegister` reads every register of the core.
pub mod Base
pub mod FrontEnd
pub mod Integer
pub mod Memory
pub mod FloatingPoint
pub mod Read
use rsd_mp.VerilatorHelper.Laws.Read.{IsRead}
use rsd_mp.Common.{
  ℕ, zero, suc, ◌<◌, List, [], ◌∷◌, some, get_elem?, set, length, ◌≡◌, ◌≢◌, refl, ap, sym, ◌∙◌,
  arith, some_eq,
}
use rsd_mp.VerilatorHelper.Accessors.{Accessors}
use rsd_mp.VerilatorHelper.Register.{DebugRegister}
use rsd_mp.VerilatorHelper.Get.{get_debug_register}
use rsd_mp.VerilatorHelper.Stage.{CommitStageDebugRegister, ComplexIntegerIssueStageDebugRegister}
use rsd_mp.VerilatorHelper.Stage.{ComplexIntegerRegisterReadStageDebugRegister}
use rsd_mp.VerilatorHelper.Stage.{ComplexIntegerRegisterWriteStageDebugRegister}
use rsd_mp.VerilatorHelper.Stage.{DecodeStageDebugRegister, DispatchStageDebugRegister}
use rsd_mp.VerilatorHelper.Stage.{FetchStageDebugRegister, FpIntegerIssueStageDebugRegister}
use rsd_mp.VerilatorHelper.Stage.{FpIntegerRegisterReadStageDebugRegister}
use rsd_mp.VerilatorHelper.Stage.{FpIntegerRegisterWriteStageDebugRegister}
use rsd_mp.VerilatorHelper.Stage.{IntegerExecutionStageDebugRegister}
use rsd_mp.VerilatorHelper.Stage.{IntegerIssueStageDebugRegister}
use rsd_mp.VerilatorHelper.Stage.{IntegerRegisterReadStageDebugRegister}
use rsd_mp.VerilatorHelper.Stage.{IntegerRegisterWriteStageDebugRegister, IssueQueueDebugRegister}
use rsd_mp.VerilatorHelper.Stage.{MemoryAccessStageDebugRegister}
use rsd_mp.VerilatorHelper.Stage.{MemoryExecutionStageDebugRegister}
use rsd_mp.VerilatorHelper.Stage.{MemoryIssueStageDebugRegister}
use rsd_mp.VerilatorHelper.Stage.{MemoryRegisterReadStageDebugRegister}
use rsd_mp.VerilatorHelper.Stage.{MemoryRegisterWriteStageDebugRegister}
use rsd_mp.VerilatorHelper.Stage.{MemoryTagAccessStageDebugRegister, NextPcStageDebugRegister}
use rsd_mp.VerilatorHelper.Stage.{PreDecodeStageDebugRegister, RenameStageDebugRegister}
use rsd_mp.VerilatorHelper.Stage.{SchedulerDebugRegister}
use rsd_mp.VerilatorHelper.Stage.{ComplexIntegerExecutionStageDebugRegister}
use rsd_mp.VerilatorHelper.Stage.{FpIntegerExecutionStageDebugRegister, OpId}
use rsd_mp.VerilatorHelper.Laws.FrontEnd.{np_reg_read, get_np_reg_lem, if_reg_read}
use rsd_mp.VerilatorHelper.Laws.FrontEnd.{get_if_reg_lem, pd_reg_read, get_pd_reg_lem}
use rsd_mp.VerilatorHelper.Laws.FrontEnd.{id_reg_read, get_id_reg_lem, rn_reg_read}
use rsd_mp.VerilatorHelper.Laws.FrontEnd.{get_rn_reg_lem, ds_reg_read, get_ds_reg_lem}
use rsd_mp.VerilatorHelper.Laws.FrontEnd.{cm_reg_read, get_cm_reg_lem, scheduler_read}
use rsd_mp.VerilatorHelper.Laws.FrontEnd.{get_scheduler_lem, issue_queue_read}
use rsd_mp.VerilatorHelper.Laws.FrontEnd.{get_issue_queue_lem}
use rsd_mp.VerilatorHelper.Laws.Integer.{int_is_reg_read, get_int_is_reg_lem, int_rr_reg_read}
use rsd_mp.VerilatorHelper.Laws.Integer.{get_int_rr_reg_lem, int_ex_reg_read, get_int_ex_reg_lem}
use rsd_mp.VerilatorHelper.Laws.Integer.{int_rw_reg_read, get_int_rw_reg_lem, complex_is_reg_read}
use rsd_mp.VerilatorHelper.Laws.Integer.{get_complex_is_reg_lem, complex_rr_reg_read}
use rsd_mp.VerilatorHelper.Laws.Integer.{get_complex_rr_reg_lem, complex_ex_reg_read}
use rsd_mp.VerilatorHelper.Laws.Integer.{get_complex_ex_reg_lem, complex_rw_reg_read}
use rsd_mp.VerilatorHelper.Laws.Integer.{get_complex_rw_reg_lem}
use rsd_mp.VerilatorHelper.Laws.Memory.{mem_is_reg_read, get_mem_is_reg_lem, mem_rr_reg_read}
use rsd_mp.VerilatorHelper.Laws.Memory.{get_mem_rr_reg_lem, mem_ex_reg_read, get_mem_ex_reg_lem}
use rsd_mp.VerilatorHelper.Laws.Memory.{mt_reg_read, get_mt_reg_lem, ma_reg_read, get_ma_reg_lem}
use rsd_mp.VerilatorHelper.Laws.Memory.{mem_rw_reg_read, get_mem_rw_reg_lem}
use rsd_mp.VerilatorHelper.Laws.FloatingPoint.{fp_is_reg_read, get_fp_is_reg_lem, fp_rr_reg_read}
use rsd_mp.VerilatorHelper.Laws.FloatingPoint.{get_fp_rr_reg_lem, fp_ex_reg_read}
use rsd_mp.VerilatorHelper.Laws.FloatingPoint.{get_fp_ex_reg_lem, fp_rw_reg_read}
use rsd_mp.VerilatorHelper.Laws.FloatingPoint.{get_fp_rw_reg_lem}

-- `GetDebugRegister` copies every register of the core, entry by entry, but those of the execution
-- stages of the complex integer and of the floating-point pipeline: each member that is read of
-- entry `i` of a stage is the accessor's value for index `i`, whatever stood there before.
pub get_debug_register-IsRead :
    (h : Accessors) (d : DebugRegister) → IsRead h d (get_debug_register h d)
unfolding get_debug_register
get_debug_register-IsRead h d = record {
  np_reg = get_np_reg_lem h d.np_reg;
  if_reg = get_if_reg_lem h d.if_reg;
  pd_reg = get_pd_reg_lem h d.pd_reg;
  id_reg = get_id_reg_lem h d.id_reg;
  rn_reg = get_rn_reg_lem h d.rn_reg;
  ds_reg = get_ds_reg_lem h d.ds_reg;
  int_is_reg = get_int_is_reg_lem h d.int_is_reg;
  int_rr_reg = get_int_rr_reg_lem h d.int_rr_reg;
  int_ex_reg = get_int_ex_reg_lem h d.int_ex_reg;
  int_rw_reg = get_int_rw_reg_lem h d.int_rw_reg;
  complex_is_reg = get_complex_is_reg_lem h d.complex_is_reg;
  complex_rr_reg = get_complex_rr_reg_lem h d.complex_rr_reg;
  complex_rw_reg = get_complex_rw_reg_lem h d.complex_rw_reg;
  mem_is_reg = get_mem_is_reg_lem h d.mem_is_reg;
  mem_rr_reg = get_mem_rr_reg_lem h d.mem_rr_reg;
  mem_ex_reg = get_mem_ex_reg_lem h d.mem_ex_reg;
  mt_reg = get_mt_reg_lem h d.mt_reg;
  ma_reg = get_ma_reg_lem h d.ma_reg;
  mem_rw_reg = get_mem_rw_reg_lem h d.mem_rw_reg;
  fp_is_reg = get_fp_is_reg_lem h d.fp_is_reg;
  fp_rr_reg = get_fp_rr_reg_lem h d.fp_rr_reg;
  fp_rw_reg = get_fp_rw_reg_lem h d.fp_rw_reg;
  cm_reg = get_cm_reg_lem h d.cm_reg;
  scheduler = get_scheduler_lem h d.scheduler;
  issue_queue = get_issue_queue_lem h d.issue_queue;
  to_recovery_phase = refl;
  active_list_head_ptr = refl;
  active_list_count = refl;
  stall_by_decode_stage = refl;
  load_store_unit_allocatable = refl;
  store_committer_phase = refl;
  store_queue_count = refl;
  busy_in_recovery = refl;
  store_queue_empty = refl;
  np_stage_pipe_ctrl_stall = refl;
  np_stage_pipe_ctrl_clear = refl;
  if_stage_pipe_ctrl_stall = refl;
  if_stage_pipe_ctrl_clear = refl;
  pd_stage_pipe_ctrl_stall = refl;
  pd_stage_pipe_ctrl_clear = refl;
  id_stage_pipe_ctrl_stall = refl;
  id_stage_pipe_ctrl_clear = refl;
  rn_stage_pipe_ctrl_stall = refl;
  rn_stage_pipe_ctrl_clear = refl;
  ds_stage_pipe_ctrl_stall = refl;
  ds_stage_pipe_ctrl_clear = refl;
  back_end_pipe_ctrl_stall = refl;
  back_end_pipe_ctrl_clear = refl;
  cm_stage_pipe_ctrl_stall = refl;
  cm_stage_pipe_ctrl_clear = refl;
  num_ic_miss = refl;
  num_load_miss = refl;
  num_store_miss = refl;
  num_store_load_forwarding_fail = refl;
  num_mem_dep_pred_miss = refl;
  num_branch_pred_miss = refl;
  num_branch_pred_miss_detected_on_decode = refl;
}

-- The loops that read the identity of the operation in the first execution stage of the complex
-- integer and of the floating-point pipeline never step their index: where entry `i` of the two has
-- a stage, it gets the identity of entry 0 of the core.
pub ex_op_id_of_first :
    (h : Accessors) (d : DebugRegister) (i : ℕ) (s : ComplexIntegerExecutionStageDebugRegister)
    (t : FpIntegerExecutionStageDebugRegister)
    → get_elem? d.complex_ex_reg i ≡ some s
    → 0 < length s.op_id
    → get_elem? d.fp_ex_reg i ≡ some t
    → 0 < length t.op_id
    → ((s' : ComplexIntegerExecutionStageDebugRegister) × (get_elem?
            (get_debug_register h d).complex_ex_reg
            i
          ≡ some s')
        × (get_elem? s'.op_id 0
            ≡ some (record {
              sid = h.op_id_sid (h.complex_ex_reg_op_id 0);
              mid = h.op_id_mid (h.complex_ex_reg_op_id 0);
            })))
      × ((t' : FpIntegerExecutionStageDebugRegister) × (get_elem?
              (get_debug_register h d).fp_ex_reg
              i
            ≡ some t')
          × (get_elem? t'.op_id 0
              ≡ some (record {
                sid = h.op_id_sid (h.fp_ex_reg_op_id 0);
                mid = h.op_id_mid (h.fp_ex_reg_op_id 0);
              })))
unfolding get_debug_register
ex_op_id_of_first h d i s t es ps et pt = (
  (
    complex_ex_reg_read h i s,
    get_complex_ex_reg_lem h d.complex_ex_reg i s es,
    set_first s.op_id _ ps,
  ),
  (fp_ex_reg_read h i t, get_fp_ex_reg_lem h d.fp_ex_reg i t et, set_first t.op_id _ pt),
)
  where
    set_first : (xs : List OpId) (o : OpId) → 0 < length xs → get_elem? (set xs 0 o) 0 ≡ some o
    set_first [] o pos = absurd (omega arith)
    set_first (x ∷ xs) o pos = refl
