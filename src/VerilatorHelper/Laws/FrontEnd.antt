-- ===== src/VerilatorHelper/Laws/FrontEnd.antt =====
-- What `GetDebugRegister` leaves in an entry of the group FrontEnd.
use rsd_mp.Common.{ℕ, List, some, get_elem?, ◌≡◌}
use rsd_mp.VerilatorHelper.Stage.{CommitStageDebugRegister, DecodeStageDebugRegister}
use rsd_mp.VerilatorHelper.Stage.{DispatchStageDebugRegister, FetchStageDebugRegister}
use rsd_mp.VerilatorHelper.Stage.{IssueQueueDebugRegister, NextPcStageDebugRegister}
use rsd_mp.VerilatorHelper.Stage.{PreDecodeStageDebugRegister, RenameStageDebugRegister}
use rsd_mp.VerilatorHelper.Stage.{SchedulerDebugRegister, OpId}
use rsd_mp.VerilatorHelper.Accessors.{Accessors}
use rsd_mp.VerilatorHelper.Get.{get_np_reg, get_if_reg, get_pd_reg, get_id_reg}
use rsd_mp.VerilatorHelper.Get.{get_rn_reg, get_ds_reg, get_cm_reg, get_scheduler}
use rsd_mp.VerilatorHelper.Get.{get_issue_queue}
use rsd_mp.VerilatorHelper.Laws.Base.{each_entry}

abbrev op_id : Accessors → ℕ → OpId
op_id h raw = record { sid = h.op_id_sid raw; mid = h.op_id_mid raw }

-- Entry `i` after the reading.
abbrev pub np_reg_read : Accessors → ℕ → NextPcStageDebugRegister
np_reg_read h i = record { valid = h.np_reg_valid i; sid = h.np_reg_sid i }

pub get_np_reg_lem :
    (h : Accessors) (xs : List NextPcStageDebugRegister) (i : ℕ) (s : NextPcStageDebugRegister)
    → get_elem? xs i ≡ some s
    → get_elem? (get_np_reg h xs) i ≡ some (np_reg_read h i)
unfolding get_np_reg
get_np_reg_lem h xs i s e = each_entry _ _ i (each_entry _ _ i e)

-- Entry `i` after the reading.
abbrev pub if_reg_read : Accessors → ℕ → FetchStageDebugRegister
if_reg_read h i = record {
  valid = h.if_reg_valid i;
  sid = h.if_reg_sid i;
  flush = h.if_reg_flush i;
  ic_miss = h.if_reg_ic_miss i;
}

pub get_if_reg_lem :
    (h : Accessors) (xs : List FetchStageDebugRegister) (i : ℕ) (s : FetchStageDebugRegister)
    → get_elem? xs i ≡ some s
    → get_elem? (get_if_reg h xs) i ≡ some (if_reg_read h i)
unfolding get_if_reg
get_if_reg_lem h xs i s e =
    each_entry _ _ i (each_entry _ _ i (each_entry _ _ i (each_entry _ _ i e)))

-- Entry `i` after the reading.
abbrev pub pd_reg_read : Accessors → ℕ → PreDecodeStageDebugRegister
pd_reg_read h i = record {
  valid = h.pd_reg_valid i;
  sid = h.pd_reg_sid i;
  alu_code = h.pd_reg_alu_code i;
  op_type = h.pd_reg_op_type i;
}

pub get_pd_reg_lem :
    (h : Accessors) (xs : List PreDecodeStageDebugRegister) (i : ℕ)
    (s : PreDecodeStageDebugRegister)
    → get_elem? xs i ≡ some s
    → get_elem? (get_pd_reg h xs) i ≡ some (pd_reg_read h i)
unfolding get_pd_reg
get_pd_reg_lem h xs i s e =
    each_entry _ _ i (each_entry _ _ i (each_entry _ _ i (each_entry _ _ i e)))

-- Entry `i` after the reading.
abbrev pub id_reg_read : Accessors → ℕ → DecodeStageDebugRegister
id_reg_read h i = record {
  valid = h.id_reg_valid i;
  flushed = h.id_reg_flushed i;
  flush_triggering = h.id_reg_flush_triggering i;
  op_id = op_id h (h.id_reg_op_id i);
  pc = h.id_reg_pc i;
  insn = h.id_reg_insn i;
  undefined = h.id_reg_undefined i;
  unsupported = h.id_reg_unsupported i;
}

pub get_id_reg_lem :
    (h : Accessors) (xs : List DecodeStageDebugRegister) (i : ℕ) (s : DecodeStageDebugRegister)
    → get_elem? xs i ≡ some s
    → get_elem? (get_id_reg h xs) i ≡ some (id_reg_read h i)
unfolding get_id_reg
get_id_reg_lem h xs i s e = each_entry _ _ i (
    each_entry _ _ i (
      each_entry _ _ i (
        each_entry _ _ i
          (each_entry _ _ i (each_entry _ _ i (each_entry _ _ i (each_entry _ _ i e)))))))

-- Entry `i` after the reading.
abbrev pub rn_reg_read : Accessors → ℕ → RenameStageDebugRegister
rn_reg_read h i = record { valid = h.rn_reg_valid i; op_id = op_id h (h.rn_reg_op_id i) }

pub get_rn_reg_lem :
    (h : Accessors) (xs : List RenameStageDebugRegister) (i : ℕ) (s : RenameStageDebugRegister)
    → get_elem? xs i ≡ some s
    → get_elem? (get_rn_reg h xs) i ≡ some (rn_reg_read h i)
unfolding get_rn_reg
get_rn_reg_lem h xs i s e = each_entry _ _ i (each_entry _ _ i e)

-- Entry `i` after the reading.
abbrev pub ds_reg_read : Accessors → ℕ → DispatchStageDebugRegister
ds_reg_read h i = record {
  valid = h.ds_reg_valid i;
  op_id = op_id h (h.ds_reg_op_id i);
  read_reg_a = h.ds_reg_read_reg_a i;
  log_src_reg_a = h.ds_reg_log_src_reg_a i;
  phy_src_reg_a = h.ds_reg_phy_src_reg_a i;
  read_reg_b = h.ds_reg_read_reg_b i;
  log_src_reg_b = h.ds_reg_log_src_reg_b i;
  phy_src_reg_b = h.ds_reg_phy_src_reg_b i;
  read_reg_c = h.ds_reg_read_reg_c i;
  log_src_reg_c = h.ds_reg_log_src_reg_c i;
  phy_src_reg_c = h.ds_reg_phy_src_reg_c i;
  write_reg = h.ds_reg_write_reg i;
  log_dst_reg = h.ds_reg_log_dst_reg i;
  phy_dst_reg = h.ds_reg_phy_dst_reg i;
  phy_prev_dst_reg = h.ds_reg_phy_prev_dst_reg i;
  active_list_ptr = h.ds_reg_active_list_ptr i;
  issue_queue_ptr = h.ds_reg_issue_queue_ptr i;
}

pub get_ds_reg_lem :
    (h : Accessors) (xs : List DispatchStageDebugRegister) (i : ℕ) (s : DispatchStageDebugRegister)
    → get_elem? xs i ≡ some s
    → get_elem? (get_ds_reg h xs) i ≡ some (ds_reg_read h i)
unfolding get_ds_reg
get_ds_reg_lem h xs i s e = each_entry _ _ i (
    each_entry _ _ i (
      each_entry _ _ i (
        each_entry _ _ i (
          each_entry _ _ i (
            each_entry _ _ i (
              each_entry _ _ i (
                each_entry _ _ i (
                  each_entry _ _ i (
                    each_entry _ _ i (
                      each_entry _ _ i (
                        each_entry _ _ i (
                          each_entry _ _ i (
                            each_entry _ _ i (
                              each_entry _ _ i (each_entry _ _ i (each_entry _ _ i e))))))))))))))))

-- Entry `i` after the reading.
abbrev pub cm_reg_read : Accessors → ℕ → CommitStageDebugRegister
cm_reg_read h i = record {
  commit = h.cm_reg_commit i;
  flush = h.cm_reg_flush i;
  op_id = op_id h (h.cm_reg_op_id i);
  release_reg = h.cm_reg_release_reg i;
  phy_released_reg = h.cm_reg_phy_released_reg i;
}

pub get_cm_reg_lem :
    (h : Accessors) (xs : List CommitStageDebugRegister) (i : ℕ) (s : CommitStageDebugRegister)
    → get_elem? xs i ≡ some s
    → get_elem? (get_cm_reg h xs) i ≡ some (cm_reg_read h i)
unfolding get_cm_reg
get_cm_reg_lem h xs i s e =
    each_entry _ _ i (each_entry _ _ i (each_entry _ _ i (each_entry _ _ i (each_entry _ _ i e))))

-- Entry `i` after the reading.
abbrev pub scheduler_read : Accessors → ℕ → SchedulerDebugRegister
scheduler_read h i = record { valid = h.scheduler_valid i }

pub get_scheduler_lem :
    (h : Accessors) (xs : List SchedulerDebugRegister) (i : ℕ) (s : SchedulerDebugRegister)
    → get_elem? xs i ≡ some s
    → get_elem? (get_scheduler h xs) i ≡ some (scheduler_read h i)
unfolding get_scheduler
get_scheduler_lem h xs i s e = each_entry _ _ i e

-- Entry `i` after the reading.
abbrev pub issue_queue_read : Accessors → ℕ → IssueQueueDebugRegister
issue_queue_read h i = record {
  flush = h.issue_queue_flush i;
  op_id = op_id h (h.issue_queue_op_id i);
}

pub get_issue_queue_lem :
    (h : Accessors) (xs : List IssueQueueDebugRegister) (i : ℕ) (s : IssueQueueDebugRegister)
    → get_elem? xs i ≡ some s
    → get_elem? (get_issue_queue h xs) i ≡ some (issue_queue_read h i)
unfolding get_issue_queue
get_issue_queue_lem h xs i s e = each_entry _ _ i (each_entry _ _ i e)
