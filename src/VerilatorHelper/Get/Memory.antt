-- ===== src/VerilatorHelper/Get/Memory.antt =====
-- VerilatorHelper.h, `GetDebugRegister`: the registers of the group Memory.
use rsd_mp.Common.{List}
use rsd_mp.VerilatorHelper.Stage.{MemoryAccessStageDebugRegister}
use rsd_mp.VerilatorHelper.Stage.{MemoryExecutionStageDebugRegister}
use rsd_mp.VerilatorHelper.Stage.{MemoryIssueStageDebugRegister}
use rsd_mp.VerilatorHelper.Stage.{MemoryRegisterReadStageDebugRegister}
use rsd_mp.VerilatorHelper.Stage.{MemoryRegisterWriteStageDebugRegister}
use rsd_mp.VerilatorHelper.Stage.{MemoryTagAccessStageDebugRegister}
use rsd_mp.VerilatorHelper.Accessors.{Accessors}
use rsd_mp.VerilatorHelper.Get.Base.{each, get_op_id}

unfoldable pub get_mem_is_reg :
    Accessors → List MemoryIssueStageDebugRegister → List MemoryIssueStageDebugRegister
unfolding each get_op_id
get_mem_is_reg h xs0 =
    let xs1 : List MemoryIssueStageDebugRegister =
      each (λ i s. record s { valid = h.mem_is_reg_valid i }) 0 xs0 in
    let xs2 : List MemoryIssueStageDebugRegister =
      each (λ i s. record s { flush = h.mem_is_reg_flush i }) 0 xs1 in
    each (λ i s. record s { op_id = get_op_id h (h.mem_is_reg_op_id i) }) 0 xs2

unfoldable pub get_mem_rr_reg :
    Accessors
    → List MemoryRegisterReadStageDebugRegister
    → List MemoryRegisterReadStageDebugRegister
unfolding each get_op_id
get_mem_rr_reg h xs0 =
    let xs1 : List MemoryRegisterReadStageDebugRegister =
      each (λ i s. record s { valid = h.mem_rr_reg_valid i }) 0 xs0 in
    let xs2 : List MemoryRegisterReadStageDebugRegister =
      each (λ i s. record s { flush = h.mem_rr_reg_flush i }) 0 xs1 in
    each (λ i s. record s { op_id = get_op_id h (h.mem_rr_reg_op_id i) }) 0 xs2

unfoldable pub get_mem_ex_reg :
    Accessors → List MemoryExecutionStageDebugRegister → List MemoryExecutionStageDebugRegister
unfolding each get_op_id
get_mem_ex_reg h xs0 =
    let xs1 : List MemoryExecutionStageDebugRegister =
      each (λ i s. record s { valid = h.mem_ex_reg_valid i }) 0 xs0 in
    let xs2 : List MemoryExecutionStageDebugRegister =
      each (λ i s. record s { flush = h.mem_ex_reg_flush i }) 0 xs1 in
    let xs3 : List MemoryExecutionStageDebugRegister =
      each (λ i s. record s { op_id = get_op_id h (h.mem_ex_reg_op_id i) }) 0 xs2 in
    let xs4 : List MemoryExecutionStageDebugRegister =
      each (λ i s. record s { addr_out = h.mem_ex_reg_addr_out i }) 0 xs3 in
    let xs5 : List MemoryExecutionStageDebugRegister =
      each (λ i s. record s { fu_op_a = h.mem_ex_reg_fu_op_a i }) 0 xs4 in
    let xs6 : List MemoryExecutionStageDebugRegister =
      each (λ i s. record s { fu_op_b = h.mem_ex_reg_fu_op_b i }) 0 xs5 in
    let xs7 : List MemoryExecutionStageDebugRegister =
      each (λ i s. record s { op_type = h.mem_ex_reg_op_type i }) 0 xs6 in
    let xs8 : List MemoryExecutionStageDebugRegister =
      each (λ i s. record s { size = h.mem_ex_reg_size i }) 0 xs7 in
    each (λ i s. record s { is_signed = h.mem_ex_reg_is_signed i }) 0 xs8

unfoldable pub get_mt_reg :
    Accessors → List MemoryTagAccessStageDebugRegister → List MemoryTagAccessStageDebugRegister
unfolding each get_op_id
get_mt_reg h xs0 =
    let xs1 : List MemoryTagAccessStageDebugRegister =
      each (λ i s. record s { valid = h.mt_reg_valid i }) 0 xs0 in
    let xs2 : List MemoryTagAccessStageDebugRegister =
      each (λ i s. record s { flush = h.mt_reg_flush i }) 0 xs1 in
    let xs3 : List MemoryTagAccessStageDebugRegister =
      each (λ i s. record s { op_id = get_op_id h (h.mt_reg_op_id i) }) 0 xs2 in
    let xs4 : List MemoryTagAccessStageDebugRegister =
      each (λ i s. record s { execute_load = h.mt_reg_execute_load i }) 0 xs3 in
    let xs5 : List MemoryTagAccessStageDebugRegister =
      each (λ i s. record s { executed_load_addr = h.mt_reg_executed_load_addr i }) 0 xs4 in
    let xs6 : List MemoryTagAccessStageDebugRegister =
      each (λ i s. record s { mshr_allocated = h.mt_reg_mshr_allocated i }) 0 xs5 in
    let xs7 : List MemoryTagAccessStageDebugRegister =
      each (λ i s. record s { mshr_hit = h.mt_reg_mshr_hit i }) 0 xs6 in
    let xs8 : List MemoryTagAccessStageDebugRegister =
      each (λ i s. record s { mshr_entry_id = h.mt_reg_mshr_entry_id i }) 0 xs7 in
    let xs9 : List MemoryTagAccessStageDebugRegister =
      each (λ i s. record s { execute_store = h.mt_reg_execute_store i }) 0 xs8 in
    let xs10 : List MemoryTagAccessStageDebugRegister =
      each (λ i s. record s { executed_store_addr = h.mt_reg_executed_store_addr i }) 0 xs9 in
    each (λ i s. record s { executed_store_data = h.mt_reg_executed_store_data i }) 0 xs10

unfoldable pub get_ma_reg :
    Accessors → List MemoryAccessStageDebugRegister → List MemoryAccessStageDebugRegister
unfolding each get_op_id
get_ma_reg h xs0 =
    let xs1 : List MemoryAccessStageDebugRegister =
      each (λ i s. record s { valid = h.ma_reg_valid i }) 0 xs0 in
    let xs2 : List MemoryAccessStageDebugRegister =
      each (λ i s. record s { flush = h.ma_reg_flush i }) 0 xs1 in
    let xs3 : List MemoryAccessStageDebugRegister =
      each (λ i s. record s { op_id = get_op_id h (h.ma_reg_op_id i) }) 0 xs2 in
    let xs4 : List MemoryAccessStageDebugRegister =
      each (λ i s. record s { execute_load = h.ma_reg_execute_load i }) 0 xs3 in
    each (λ i s. record s { executed_load_data = h.ma_reg_executed_load_data i }) 0 xs4

unfoldable pub get_mem_rw_reg :
    Accessors
    → List MemoryRegisterWriteStageDebugRegister
    → List MemoryRegisterWriteStageDebugRegister
unfolding each get_op_id
get_mem_rw_reg h xs0 =
    let xs1 : List MemoryRegisterWriteStageDebugRegister =
      each (λ i s. record s { valid = h.mem_rw_reg_valid i }) 0 xs0 in
    let xs2 : List MemoryRegisterWriteStageDebugRegister =
      each (λ i s. record s { flush = h.mem_rw_reg_flush i }) 0 xs1 in
    each (λ i s. record s { op_id = get_op_id h (h.mem_rw_reg_op_id i) }) 0 xs2
