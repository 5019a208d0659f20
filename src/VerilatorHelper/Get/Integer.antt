-- ===== src/VerilatorHelper/Get/Integer.antt =====
-- VerilatorHelper.h, `GetDebugRegister`: the registers of the group Integer.
use rsd_mp.Common.{List, set}
use rsd_mp.VerilatorHelper.Stage.{ComplexIntegerExecutionStageDebugRegister}
use rsd_mp.VerilatorHelper.Stage.{ComplexIntegerIssueStageDebugRegister}
use rsd_mp.VerilatorHelper.Stage.{ComplexIntegerRegisterReadStageDebugRegister}
use rsd_mp.VerilatorHelper.Stage.{ComplexIntegerRegisterWriteStageDebugRegister}
use rsd_mp.VerilatorHelper.Stage.{IntegerExecutionStageDebugRegister}
use rsd_mp.VerilatorHelper.Stage.{IntegerIssueStageDebugRegister}
use rsd_mp.VerilatorHelper.Stage.{IntegerRegisterReadStageDebugRegister}
use rsd_mp.VerilatorHelper.Stage.{IntegerRegisterWriteStageDebugRegister}
use rsd_mp.VerilatorHelper.Accessors.{Accessors}
use rsd_mp.VerilatorHelper.Get.Base.{each, each_unstepped, get_op_id}

unfoldable pub get_int_is_reg :
    Accessors → List IntegerIssueStageDebugRegister → List IntegerIssueStageDebugRegister
unfolding each get_op_id
get_int_is_reg h xs0 =
    let xs1 : List IntegerIssueStageDebugRegister =
      each (λ i s. record s { valid = h.int_is_reg_valid i }) 0 xs0 in
    let xs2 : List IntegerIssueStageDebugRegister =
      each (λ i s. record s { flush = h.int_is_reg_flush i }) 0 xs1 in
    each (λ i s. record s { op_id = get_op_id h (h.int_is_reg_op_id i) }) 0 xs2

unfoldable pub get_int_rr_reg :
    Accessors
    → List IntegerRegisterReadStageDebugRegister
    → List IntegerRegisterReadStageDebugRegister
unfolding each get_op_id
get_int_rr_reg h xs0 =
    let xs1 : List IntegerRegisterReadStageDebugRegister =
      each (λ i s. record s { valid = h.int_rr_reg_valid i }) 0 xs0 in
    let xs2 : List IntegerRegisterReadStageDebugRegister =
      each (λ i s. record s { flush = h.int_rr_reg_flush i }) 0 xs1 in
    each (λ i s. record s { op_id = get_op_id h (h.int_rr_reg_op_id i) }) 0 xs2

unfoldable pub get_int_ex_reg :
    Accessors → List IntegerExecutionStageDebugRegister → List IntegerExecutionStageDebugRegister
unfolding each get_op_id
get_int_ex_reg h xs0 =
    let xs1 : List IntegerExecutionStageDebugRegister =
      each (λ i s. record s { valid = h.int_ex_reg_valid i }) 0 xs0 in
    let xs2 : List IntegerExecutionStageDebugRegister =
      each (λ i s. record s { flush = h.int_ex_reg_flush i }) 0 xs1 in
    let xs3 : List IntegerExecutionStageDebugRegister =
      each (λ i s. record s { op_id = get_op_id h (h.int_ex_reg_op_id i) }) 0 xs2 in
    let xs4 : List IntegerExecutionStageDebugRegister =
      each (λ i s. record s { data_out = h.int_ex_reg_data_out i }) 0 xs3 in
    let xs5 : List IntegerExecutionStageDebugRegister =
      each (λ i s. record s { fu_op_a = h.int_ex_reg_fu_op_a i }) 0 xs4 in
    let xs6 : List IntegerExecutionStageDebugRegister =
      each (λ i s. record s { fu_op_b = h.int_ex_reg_fu_op_b i }) 0 xs5 in
    let xs7 : List IntegerExecutionStageDebugRegister =
      each (λ i s. record s { alu_code = h.int_ex_reg_alu_code i }) 0 xs6 in
    let xs8 : List IntegerExecutionStageDebugRegister =
      each (λ i s. record s { op_type = h.int_ex_reg_op_type i }) 0 xs7 in
    each (λ i s. record s { br_pred_miss = h.int_ex_reg_br_pred_miss i }) 0 xs8

unfoldable pub get_int_rw_reg :
    Accessors
    → List IntegerRegisterWriteStageDebugRegister
    → List IntegerRegisterWriteStageDebugRegister
unfolding each get_op_id
get_int_rw_reg h xs0 =
    let xs1 : List IntegerRegisterWriteStageDebugRegister =
      each (λ i s. record s { valid = h.int_rw_reg_valid i }) 0 xs0 in
    let xs2 : List IntegerRegisterWriteStageDebugRegister =
      each (λ i s. record s { flush = h.int_rw_reg_flush i }) 0 xs1 in
    each (λ i s. record s { op_id = get_op_id h (h.int_rw_reg_op_id i) }) 0 xs2

unfoldable pub get_complex_is_reg :
    Accessors
    → List ComplexIntegerIssueStageDebugRegister
    → List ComplexIntegerIssueStageDebugRegister
unfolding each get_op_id
get_complex_is_reg h xs0 =
    let xs1 : List ComplexIntegerIssueStageDebugRegister =
      each (λ i s. record s { valid = h.complex_is_reg_valid i }) 0 xs0 in
    let xs2 : List ComplexIntegerIssueStageDebugRegister =
      each (λ i s. record s { flush = h.complex_is_reg_flush i }) 0 xs1 in
    each (λ i s. record s { op_id = get_op_id h (h.complex_is_reg_op_id i) }) 0 xs2

unfoldable pub get_complex_rr_reg :
    Accessors
    → List ComplexIntegerRegisterReadStageDebugRegister
    → List ComplexIntegerRegisterReadStageDebugRegister
unfolding each get_op_id
get_complex_rr_reg h xs0 =
    let xs1 : List ComplexIntegerRegisterReadStageDebugRegister =
      each (λ i s. record s { valid = h.complex_rr_reg_valid i }) 0 xs0 in
    let xs2 : List ComplexIntegerRegisterReadStageDebugRegister =
      each (λ i s. record s { flush = h.complex_rr_reg_flush i }) 0 xs1 in
    each (λ i s. record s { op_id = get_op_id h (h.complex_rr_reg_op_id i) }) 0 xs2

unfoldable pub get_complex_ex_reg :
    Accessors
    → List ComplexIntegerExecutionStageDebugRegister
    → List ComplexIntegerExecutionStageDebugRegister
unfolding each get_op_id each_unstepped
get_complex_ex_reg h xs0 =
    let xs1 : List ComplexIntegerExecutionStageDebugRegister =
      each (λ i s. record s { flush = h.complex_ex_reg_flush i }) 0 xs0 in
    let xs2 : List ComplexIntegerExecutionStageDebugRegister =
      each (λ i s. record s { valid = set s.valid 0 (h.complex_ex_reg_valid i) }) 0 xs1 in
    let xs3 : List ComplexIntegerExecutionStageDebugRegister =
      each_unstepped
        (λ i s. record s { op_id = set s.op_id 0 (get_op_id h (h.complex_ex_reg_op_id i)) }) 0
        xs2 in
    let xs4 : List ComplexIntegerExecutionStageDebugRegister =
      each (λ i s. record s { data_out = h.complex_ex_reg_data_out i }) 0 xs3 in
    let xs5 : List ComplexIntegerExecutionStageDebugRegister =
      each (λ i s. record s { fu_op_a = h.complex_ex_reg_fu_op_a i }) 0 xs4 in
    each (λ i s. record s { fu_op_b = h.complex_ex_reg_fu_op_b i }) 0 xs5

unfoldable pub get_complex_rw_reg :
    Accessors
    → List ComplexIntegerRegisterWriteStageDebugRegister
    → List ComplexIntegerRegisterWriteStageDebugRegister
unfolding each get_op_id
get_complex_rw_reg h xs0 =
    let xs1 : List ComplexIntegerRegisterWriteStageDebugRegister =
      each (λ i s. record s { valid = h.complex_rw_reg_valid i }) 0 xs0 in
    let xs2 : List ComplexIntegerRegisterWriteStageDebugRegister =
      each (λ i s. record s { flush = h.complex_rw_reg_flush i }) 0 xs1 in
    each (λ i s. record s { op_id = get_op_id h (h.complex_rw_reg_op_id i) }) 0 xs2
