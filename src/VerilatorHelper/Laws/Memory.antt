-- ===== src/VerilatorHelper/Laws/Memory.antt =====
-- What `GetDebugRegister` leaves in an entry of the group Memory.
use rsd_mp.Common.{ℕ, List, some, get_elem?, ◌≡◌}
use rsd_mp.VerilatorHelper.Stage.{MemoryAccessStageDebugRegister}
use rsd_mp.VerilatorHelper.Stage.{MemoryExecutionStageDebugRegister}
use rsd_mp.VerilatorHelper.Stage.{MemoryIssueStageDebugRegister}
use rsd_mp.VerilatorHelper.Stage.{MemoryRegisterReadStageDebugRegister}
use rsd_mp.VerilatorHelper.Stage.{MemoryRegisterWriteStageDebugRegister}
use rsd_mp.VerilatorHelper.Stage.{MemoryTagAccessStageDebugRegister, OpId}
use rsd_mp.VerilatorHelper.Accessors.{Accessors}
use rsd_mp.VerilatorHelper.Get.{get_mem_is_reg, get_mem_rr_reg, get_mem_ex_reg}
use rsd_mp.VerilatorHelper.Get.{get_mt_reg, get_ma_reg, get_mem_rw_reg}
use rsd_mp.VerilatorHelper.Laws.Base.{each_entry}

abbrev op_id : Accessors → ℕ → OpId
op_id h raw = record { sid = h.op_id_sid raw; mid = h.op_id_mid raw }

-- Entry `i` after the reading.
abbrev pub mem_is_reg_read : Accessors → ℕ → MemoryIssueStageDebugRegister
mem_is_reg_read h i = record {
  valid = h.mem_is_reg_valid i;
  flush = h.mem_is_reg_flush i;
  op_id = op_id h (h.mem_is_reg_op_id i);
}

pub get_mem_is_reg_lem :
    (h : Accessors) (xs : List MemoryIssueStageDebugRegister) (i : ℕ)
    (s : MemoryIssueStageDebugRegister)
    → get_elem? xs i ≡ some s
    → get_elem? (get_mem_is_reg h xs) i ≡ some (mem_is_reg_read h i)
unfolding get_mem_is_reg
get_mem_is_reg_lem h xs i s e = each_entry _ _ i (each_entry _ _ i (each_entry _ _ i e))

-- Entry `i` after the reading.
abbrev pub mem_rr_reg_read : Accessors → ℕ → MemoryRegisterReadStageDebugRegister
mem_rr_reg_read h i = record {
  valid = h.mem_rr_reg_valid i;
  flush = h.mem_rr_reg_flush i;
  op_id = op_id h (h.mem_rr_reg_op_id i);
}

pub get_mem_rr_reg_lem :
    (h : Accessors) (xs : List MemoryRegisterReadStageDebugRegister) (i : ℕ)
    (s : MemoryRegisterReadStageDebugRegister)
    → get_elem? xs i ≡ some s
    → get_elem? (get_mem_rr_reg h xs) i ≡ some (mem_rr_reg_read h i)
unfolding get_mem_rr_reg
get_mem_rr_reg_lem h xs i s e = each_entry _ _ i (each_entry _ _ i (each_entry _ _ i e))

-- Entry `i` after the reading, if it was `s` before.
abbrev pub mem_ex_reg_read :
    Accessors → ℕ → MemoryExecutionStageDebugRegister → MemoryExecutionStageDebugRegister
mem_ex_reg_read h i s = record s {
  valid = h.mem_ex_reg_valid i;
  flush = h.mem_ex_reg_flush i;
  op_id = op_id h (h.mem_ex_reg_op_id i);
  addr_out = h.mem_ex_reg_addr_out i;
  fu_op_a = h.mem_ex_reg_fu_op_a i;
  fu_op_b = h.mem_ex_reg_fu_op_b i;
  op_type = h.mem_ex_reg_op_type i;
  size = h.mem_ex_reg_size i;
  is_signed = h.mem_ex_reg_is_signed i;
}

pub get_mem_ex_reg_lem :
    (h : Accessors) (xs : List MemoryExecutionStageDebugRegister) (i : ℕ)
    (s : MemoryExecutionStageDebugRegister)
    → get_elem? xs i ≡ some s
    → get_elem? (get_mem_ex_reg h xs) i ≡ some (mem_ex_reg_read h i s)
unfolding get_mem_ex_reg
get_mem_ex_reg_lem h xs i s e = each_entry _ _ i (
    each_entry _ _ i (
      each_entry _ _ i (
        each_entry _ _ i (
          each_entry _ _ i
            (each_entry _ _ i (each_entry _ _ i (each_entry _ _ i (each_entry _ _ i e))))))))

-- Entry `i` after the reading, if it was `s` before.
abbrev pub mt_reg_read :
    Accessors → ℕ → MemoryTagAccessStageDebugRegister → MemoryTagAccessStageDebugRegister
mt_reg_read h i s = record s {
  valid = h.mt_reg_valid i;
  flush = h.mt_reg_flush i;
  op_id = op_id h (h.mt_reg_op_id i);
  execute_load = h.mt_reg_execute_load i;
  executed_load_addr = h.mt_reg_executed_load_addr i;
  mshr_allocated = h.mt_reg_mshr_allocated i;
  mshr_hit = h.mt_reg_mshr_hit i;
  mshr_entry_id = h.mt_reg_mshr_entry_id i;
  execute_store = h.mt_reg_execute_store i;
  executed_store_addr = h.mt_reg_executed_store_addr i;
  executed_store_data = h.mt_reg_executed_store_data i;
}

pub get_mt_reg_lem :
    (h : Accessors) (xs : List MemoryTagAccessStageDebugRegister) (i : ℕ)
    (s : MemoryTagAccessStageDebugRegister)
    → get_elem? xs i ≡ some s
    → get_elem? (get_mt_reg h xs) i ≡ some (mt_reg_read h i s)
unfolding get_mt_reg
get_mt_reg_lem h xs i s e = each_entry _ _ i (
    each_entry _ _ i (
      each_entry _ _ i (
        each_entry _ _ i (
          each_entry _ _ i (
            each_entry _ _ i (
              each_entry _ _ i
                (each_entry _ _ i (each_entry _ _ i (each_entry _ _ i (each_entry _ _ i e))))))))))

-- Entry `i` after the reading, if it was `s` before.
abbrev pub ma_reg_read :
    Accessors → ℕ → MemoryAccessStageDebugRegister → MemoryAccessStageDebugRegister
ma_reg_read h i s = record s {
  valid = h.ma_reg_valid i;
  flush = h.ma_reg_flush i;
  op_id = op_id h (h.ma_reg_op_id i);
  execute_load = h.ma_reg_execute_load i;
  executed_load_data = h.ma_reg_executed_load_data i;
}

pub get_ma_reg_lem :
    (h : Accessors) (xs : List MemoryAccessStageDebugRegister) (i : ℕ)
    (s : MemoryAccessStageDebugRegister)
    → get_elem? xs i ≡ some s
    → get_elem? (get_ma_reg h xs) i ≡ some (ma_reg_read h i s)
unfolding get_ma_reg
get_ma_reg_lem h xs i s e =
    each_entry _ _ i (each_entry _ _ i (each_entry _ _ i (each_entry _ _ i (each_entry _ _ i e))))

-- Entry `i` after the reading.
abbrev pub mem_rw_reg_read : Accessors → ℕ → MemoryRegisterWriteStageDebugRegister
mem_rw_reg_read h i = record {
  valid = h.mem_rw_reg_valid i;
  flush = h.mem_rw_reg_flush i;
  op_id = op_id h (h.mem_rw_reg_op_id i);
}

pub get_mem_rw_reg_lem :
    (h : Accessors) (xs : List MemoryRegisterWriteStageDebugRegister) (i : ℕ)
    (s : MemoryRegisterWriteStageDebugRegister)
    → get_elem? xs i ≡ some s
    → get_elem? (get_mem_rw_reg h xs) i ≡ some (mem_rw_reg_read h i)
unfolding get_mem_rw_reg
get_mem_rw_reg_lem h xs i s e = each_entry _ _ i (each_entry _ _ i (each_entry _ _ i e))
