-- ===== src/VerilatorHelper/Laws/FloatingPoint.antt =====
-- What `GetDebugRegister` leaves in an entry of the group FloatingPoint.
use rsd_mp.Common.{ℕ, List, some, get_elem?, ◌≡◌, set}
use rsd_mp.VerilatorHelper.Stage.{FpIntegerExecutionStageDebugRegister}
use rsd_mp.VerilatorHelper.Stage.{FpIntegerIssueStageDebugRegister}
use rsd_mp.VerilatorHelper.Stage.{FpIntegerRegisterReadStageDebugRegister}
use rsd_mp.VerilatorHelper.Stage.{FpIntegerRegisterWriteStageDebugRegister, OpId}
use rsd_mp.VerilatorHelper.Accessors.{Accessors}
use rsd_mp.VerilatorHelper.Get.{get_op_id, get_fp_is_reg, get_fp_rr_reg, get_fp_ex_reg}
use rsd_mp.VerilatorHelper.Get.{get_fp_rw_reg}
use rsd_mp.VerilatorHelper.Laws.Base.{each_entry, each_unstepped_entry}

abbrev op_id : Accessors → ℕ → OpId
op_id h raw = record { sid = h.op_id_sid raw; mid = h.op_id_mid raw }

-- Entry `i` after the reading.
abbrev pub fp_is_reg_read : Accessors → ℕ → FpIntegerIssueStageDebugRegister
fp_is_reg_read h i = record {
  valid = h.fp_is_reg_valid i;
  flush = h.fp_is_reg_flush i;
  op_id = op_id h (h.fp_is_reg_op_id i);
}

pub get_fp_is_reg_lem :
    (h : Accessors) (xs : List FpIntegerIssueStageDebugRegister) (i : ℕ)
    (s : FpIntegerIssueStageDebugRegister)
    → get_elem? xs i ≡ some s
    → get_elem? (get_fp_is_reg h xs) i ≡ some (fp_is_reg_read h i)
unfolding get_fp_is_reg
get_fp_is_reg_lem h xs i s e = each_entry _ _ i (each_entry _ _ i (each_entry _ _ i e))

-- Entry `i` after the reading.
abbrev pub fp_rr_reg_read : Accessors → ℕ → FpIntegerRegisterReadStageDebugRegister
fp_rr_reg_read h i = record {
  valid = h.fp_rr_reg_valid i;
  flush = h.fp_rr_reg_flush i;
  op_id = op_id h (h.fp_rr_reg_op_id i);
}

pub get_fp_rr_reg_lem :
    (h : Accessors) (xs : List FpIntegerRegisterReadStageDebugRegister) (i : ℕ)
    (s : FpIntegerRegisterReadStageDebugRegister)
    → get_elem? xs i ≡ some s
    → get_elem? (get_fp_rr_reg h xs) i ≡ some (fp_rr_reg_read h i)
unfolding get_fp_rr_reg
get_fp_rr_reg_lem h xs i s e = each_entry _ _ i (each_entry _ _ i (each_entry _ _ i e))

-- Entry `i` after the reading, if it was `s` before.
abbrev pub fp_ex_reg_read :
    Accessors → ℕ → FpIntegerExecutionStageDebugRegister → FpIntegerExecutionStageDebugRegister
fp_ex_reg_read h i s = record s {
  flush = h.fp_ex_reg_flush i;
  valid = set s.valid 0 (h.fp_ex_reg_valid i);
  op_id = set s.op_id 0 (op_id h (h.fp_ex_reg_op_id 0));
  data_out = h.fp_ex_reg_data_out i;
  fu_op_a = h.fp_ex_reg_fu_op_a i;
  fu_op_b = h.fp_ex_reg_fu_op_b i;
  fu_op_c = h.fp_ex_reg_fu_op_c i;
}

pub get_fp_ex_reg_lem :
    (h : Accessors) (xs : List FpIntegerExecutionStageDebugRegister) (i : ℕ)
    (s : FpIntegerExecutionStageDebugRegister)
    → get_elem? xs i ≡ some s
    → get_elem? (get_fp_ex_reg h xs) i ≡ some (fp_ex_reg_read h i s)
unfolding get_fp_ex_reg
get_fp_ex_reg_lem h xs i s e =
    each_entry (λ i s. record s { fu_op_c = h.fp_ex_reg_fu_op_c i }) _ i
      (each_entry (λ i s. record s { fu_op_b = h.fp_ex_reg_fu_op_b i }) _ i
        (each_entry (λ i s. record s { fu_op_a = h.fp_ex_reg_fu_op_a i }) _ i
          (each_entry (λ i s. record s { data_out = h.fp_ex_reg_data_out i }) _ i
            (each_unstepped_entry
              (λ i s. record s { op_id = set s.op_id 0 (get_op_id h (h.fp_ex_reg_op_id i)) }) 0 _ i
              (each_entry (λ i s. record s { valid = set s.valid 0 (h.fp_ex_reg_valid i) }) _ i
                (each_entry (λ i s. record s { flush = h.fp_ex_reg_flush i }) _ i e))))))

-- Entry `i` after the reading.
abbrev pub fp_rw_reg_read : Accessors → ℕ → FpIntegerRegisterWriteStageDebugRegister
fp_rw_reg_read h i = record {
  valid = h.fp_rw_reg_valid i;
  flush = h.fp_rw_reg_flush i;
  op_id = op_id h (h.fp_rw_reg_op_id i);
}

pub get_fp_rw_reg_lem :
    (h : Accessors) (xs : List FpIntegerRegisterWriteStageDebugRegister) (i : ℕ)
    (s : FpIntegerRegisterWriteStageDebugRegister)
    → get_elem? xs i ≡ some s
    → get_elem? (get_fp_rw_reg h xs) i ≡ some (fp_rw_reg_read h i)
unfolding get_fp_rw_reg
get_fp_rw_reg_lem h xs i s e = each_entry _ _ i (each_entry _ _ i (each_entry _ _ i e))
