-- ===== src/VerilatorHelper/Get/FloatingPoint.antt =====
-- VerilatorHelper.h, `GetDebugRegister`: the registers of the group FloatingPoint.
use rsd_mp.Common.{List, set}
use rsd_mp.VerilatorHelper.Stage.{FpIntegerExecutionStageDebugRegister}
use rsd_mp.VerilatorHelper.Stage.{FpIntegerIssueStageDebugRegister}
use rsd_mp.VerilatorHelper.Stage.{FpIntegerRegisterReadStageDebugRegister}
use rsd_mp.VerilatorHelper.Stage.{FpIntegerRegisterWriteStageDebugRegister}
use rsd_mp.VerilatorHelper.Accessors.{Accessors}
use rsd_mp.VerilatorHelper.Get.Base.{each, each_unstepped, get_op_id}

unfoldable pub get_fp_is_reg :
    Accessors → List FpIntegerIssueStageDebugRegister → List FpIntegerIssueStageDebugRegister
unfolding each get_op_id
get_fp_is_reg h xs0 =
    let xs1 : List FpIntegerIssueStageDebugRegister =
      each (λ i s. record s { valid = h.fp_is_reg_valid i }) 0 xs0 in
    let xs2 : List FpIntegerIssueStageDebugRegister =
      each (λ i s. record s { flush = h.fp_is_reg_flush i }) 0 xs1 in
    each (λ i s. record s { op_id = get_op_id h (h.fp_is_reg_op_id i) }) 0 xs2

unfoldable pub get_fp_rr_reg :
    Accessors
    → List FpIntegerRegisterReadStageDebugRegister
    → List FpIntegerRegisterReadStageDebugRegister
unfolding each get_op_id
get_fp_rr_reg h xs0 =
    let xs1 : List FpIntegerRegisterReadStageDebugRegister =
      each (λ i s. record s { valid = h.fp_rr_reg_valid i }) 0 xs0 in
    let xs2 : List FpIntegerRegisterReadStageDebugRegister =
      each (λ i s. record s { flush = h.fp_rr_reg_flush i }) 0 xs1 in
    each (λ i s. record s { op_id = get_op_id h (h.fp_rr_reg_op_id i) }) 0 xs2

unfoldable pub get_fp_ex_reg :
    Accessors
    → List FpIntegerExecutionStageDebugRegister
    → List FpIntegerExecutionStageDebugRegister
unfolding each get_op_id each_unstepped
get_fp_ex_reg h xs0 =
    let xs1 : List FpIntegerExecutionStageDebugRegister =
      each (λ i s. record s { flush = h.fp_ex_reg_flush i }) 0 xs0 in
    let xs2 : List FpIntegerExecutionStageDebugRegister =
      each (λ i s. record s { valid = set s.valid 0 (h.fp_ex_reg_valid i) }) 0 xs1 in
    let xs3 : List FpIntegerExecutionStageDebugRegister =
      each_unstepped (λ i s. record s { op_id = set s.op_id 0 (get_op_id h (h.fp_ex_reg_op_id i)) })
        0 xs2 in
    let xs4 : List FpIntegerExecutionStageDebugRegister =
      each (λ i s. record s { data_out = h.fp_ex_reg_data_out i }) 0 xs3 in
    let xs5 : List FpIntegerExecutionStageDebugRegister =
      each (λ i s. record s { fu_op_a = h.fp_ex_reg_fu_op_a i }) 0 xs4 in
    let xs6 : List FpIntegerExecutionStageDebugRegister =
      each (λ i s. record s { fu_op_b = h.fp_ex_reg_fu_op_b i }) 0 xs5 in
    each (λ i s. record s { fu_op_c = h.fp_ex_reg_fu_op_c i }) 0 xs6

unfoldable pub get_fp_rw_reg :
    Accessors
    → List FpIntegerRegisterWriteStageDebugRegister
    → List FpIntegerRegisterWriteStageDebugRegister
unfolding each get_op_id
get_fp_rw_reg h xs0 =
    let xs1 : List FpIntegerRegisterWriteStageDebugRegister =
      each (λ i s. record s { valid = h.fp_rw_reg_valid i }) 0 xs0 in
    let xs2 : List FpIntegerRegisterWriteStageDebugRegister =
      each (λ i s. record s { flush = h.fp_rw_reg_flush i }) 0 xs1 in
    each (λ i s. record s { op_id = get_op_id h (h.fp_rw_reg_op_id i) }) 0 xs2
