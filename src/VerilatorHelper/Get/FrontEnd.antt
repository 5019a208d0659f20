-- ===== src/VerilatorHelper/Get/FrontEnd.antt =====
-- VerilatorHelper.h, `GetDebugRegister`: the registers of the group FrontEnd.
use rsd_mp.Common.{List}
use rsd_mp.VerilatorHelper.Stage.{CommitStageDebugRegister, DecodeStageDebugRegister}
use rsd_mp.VerilatorHelper.Stage.{DispatchStageDebugRegister, FetchStageDebugRegister}
use rsd_mp.VerilatorHelper.Stage.{IssueQueueDebugRegister, NextPcStageDebugRegister}
use rsd_mp.VerilatorHelper.Stage.{PreDecodeStageDebugRegister, RenameStageDebugRegister}
use rsd_mp.VerilatorHelper.Stage.{SchedulerDebugRegister}
use rsd_mp.VerilatorHelper.Accessors.{Accessors}
use rsd_mp.VerilatorHelper.Get.Base.{each, get_op_id}

unfoldable pub get_np_reg :
    Accessors → List NextPcStageDebugRegister → List NextPcStageDebugRegister
unfolding each get_op_id
get_np_reg h xs0 =
    let xs1 : List NextPcStageDebugRegister =
      each (λ i s. record s { valid = h.np_reg_valid i }) 0 xs0 in
    each (λ i s. record s { sid = h.np_reg_sid i }) 0 xs1

unfoldable pub get_if_reg : Accessors → List FetchStageDebugRegister → List FetchStageDebugRegister
unfolding each get_op_id
get_if_reg h xs0 =
    let xs1 : List FetchStageDebugRegister =
      each (λ i s. record s { valid = h.if_reg_valid i }) 0 xs0 in
    let xs2 : List FetchStageDebugRegister =
      each (λ i s. record s { sid = h.if_reg_sid i }) 0 xs1 in
    let xs3 : List FetchStageDebugRegister =
      each (λ i s. record s { flush = h.if_reg_flush i }) 0 xs2 in
    each (λ i s. record s { ic_miss = h.if_reg_ic_miss i }) 0 xs3

unfoldable pub get_pd_reg :
    Accessors → List PreDecodeStageDebugRegister → List PreDecodeStageDebugRegister
unfolding each get_op_id
get_pd_reg h xs0 =
    let xs1 : List PreDecodeStageDebugRegister =
      each (λ i s. record s { valid = h.pd_reg_valid i }) 0 xs0 in
    let xs2 : List PreDecodeStageDebugRegister =
      each (λ i s. record s { sid = h.pd_reg_sid i }) 0 xs1 in
    let xs3 : List PreDecodeStageDebugRegister =
      each (λ i s. record s { alu_code = h.pd_reg_alu_code i }) 0 xs2 in
    each (λ i s. record s { op_type = h.pd_reg_op_type i }) 0 xs3

unfoldable pub get_id_reg :
    Accessors → List DecodeStageDebugRegister → List DecodeStageDebugRegister
unfolding each get_op_id
get_id_reg h xs0 =
    let xs1 : List DecodeStageDebugRegister =
      each (λ i s. record s { valid = h.id_reg_valid i }) 0 xs0 in
    let xs2 : List DecodeStageDebugRegister =
      each (λ i s. record s { flushed = h.id_reg_flushed i }) 0 xs1 in
    let xs3 : List DecodeStageDebugRegister =
      each (λ i s. record s { flush_triggering = h.id_reg_flush_triggering i }) 0 xs2 in
    let xs4 : List DecodeStageDebugRegister =
      each (λ i s. record s { op_id = get_op_id h (h.id_reg_op_id i) }) 0 xs3 in
    let xs5 : List DecodeStageDebugRegister = each (λ i s. record s { pc = h.id_reg_pc i }) 0 xs4 in
    let xs6 : List DecodeStageDebugRegister =
      each (λ i s. record s { insn = h.id_reg_insn i }) 0 xs5 in
    let xs7 : List DecodeStageDebugRegister =
      each (λ i s. record s { undefined = h.id_reg_undefined i }) 0 xs6 in
    each (λ i s. record s { unsupported = h.id_reg_unsupported i }) 0 xs7

unfoldable pub get_rn_reg :
    Accessors → List RenameStageDebugRegister → List RenameStageDebugRegister
unfolding each get_op_id
get_rn_reg h xs0 =
    let xs1 : List RenameStageDebugRegister =
      each (λ i s. record s { valid = h.rn_reg_valid i }) 0 xs0 in
    each (λ i s. record s { op_id = get_op_id h (h.rn_reg_op_id i) }) 0 xs1

unfoldable pub get_ds_reg :
    Accessors → List DispatchStageDebugRegister → List DispatchStageDebugRegister
unfolding each get_op_id
get_ds_reg h xs0 =
    let xs1 : List DispatchStageDebugRegister =
      each (λ i s. record s { valid = h.ds_reg_valid i }) 0 xs0 in
    let xs2 : List DispatchStageDebugRegister =
      each (λ i s. record s { op_id = get_op_id h (h.ds_reg_op_id i) }) 0 xs1 in
    let xs3 : List DispatchStageDebugRegister =
      each (λ i s. record s { read_reg_a = h.ds_reg_read_reg_a i }) 0 xs2 in
    let xs4 : List DispatchStageDebugRegister =
      each (λ i s. record s { log_src_reg_a = h.ds_reg_log_src_reg_a i }) 0 xs3 in
    let xs5 : List DispatchStageDebugRegister =
      each (λ i s. record s { phy_src_reg_a = h.ds_reg_phy_src_reg_a i }) 0 xs4 in
    let xs6 : List DispatchStageDebugRegister =
      each (λ i s. record s { read_reg_b = h.ds_reg_read_reg_b i }) 0 xs5 in
    let xs7 : List DispatchStageDebugRegister =
      each (λ i s. record s { log_src_reg_b = h.ds_reg_log_src_reg_b i }) 0 xs6 in
    let xs8 : List DispatchStageDebugRegister =
      each (λ i s. record s { phy_src_reg_b = h.ds_reg_phy_src_reg_b i }) 0 xs7 in
    let xs9 : List DispatchStageDebugRegister =
      each (λ i s. record s { read_reg_c = h.ds_reg_read_reg_c i }) 0 xs8 in
    let xs10 : List DispatchStageDebugRegister =
      each (λ i s. record s { log_src_reg_c = h.ds_reg_log_src_reg_c i }) 0 xs9 in
    let xs11 : List DispatchStageDebugRegister =
      each (λ i s. record s { phy_src_reg_c = h.ds_reg_phy_src_reg_c i }) 0 xs10 in
    let xs12 : List DispatchStageDebugRegister =
      each (λ i s. record s { write_reg = h.ds_reg_write_reg i }) 0 xs11 in
    let xs13 : List DispatchStageDebugRegister =
      each (λ i s. record s { log_dst_reg = h.ds_reg_log_dst_reg i }) 0 xs12 in
    let xs14 : List DispatchStageDebugRegister =
      each (λ i s. record s { phy_dst_reg = h.ds_reg_phy_dst_reg i }) 0 xs13 in
    let xs15 : List DispatchStageDebugRegister =
      each (λ i s. record s { phy_prev_dst_reg = h.ds_reg_phy_prev_dst_reg i }) 0 xs14 in
    let xs16 : List DispatchStageDebugRegister =
      each (λ i s. record s { active_list_ptr = h.ds_reg_active_list_ptr i }) 0 xs15 in
    each (λ i s. record s { issue_queue_ptr = h.ds_reg_issue_queue_ptr i }) 0 xs16

unfoldable pub get_cm_reg :
    Accessors → List CommitStageDebugRegister → List CommitStageDebugRegister
unfolding each get_op_id
get_cm_reg h xs0 =
    let xs1 : List CommitStageDebugRegister =
      each (λ i s. record s { commit = h.cm_reg_commit i }) 0 xs0 in
    let xs2 : List CommitStageDebugRegister =
      each (λ i s. record s { flush = h.cm_reg_flush i }) 0 xs1 in
    let xs3 : List CommitStageDebugRegister =
      each (λ i s. record s { op_id = get_op_id h (h.cm_reg_op_id i) }) 0 xs2 in
    let xs4 : List CommitStageDebugRegister =
      each (λ i s. record s { release_reg = h.cm_reg_release_reg i }) 0 xs3 in
    each (λ i s. record s { phy_released_reg = h.cm_reg_phy_released_reg i }) 0 xs4

unfoldable pub get_scheduler : Accessors → List SchedulerDebugRegister → List SchedulerDebugRegister
unfolding each get_op_id
get_scheduler h xs0 = each (λ i s. record s { valid = h.scheduler_valid i }) 0 xs0

unfoldable pub get_issue_queue :
    Accessors → List IssueQueueDebugRegister → List IssueQueueDebugRegister
unfolding each get_op_id
get_issue_queue h xs0 =
    let xs1 : List IssueQueueDebugRegister =
      each (λ i s. record s { flush = h.issue_queue_flush i }) 0 xs0 in
    each (λ i s. record s { op_id = get_op_id h (h.issue_queue_op_id i) }) 0 xs1
