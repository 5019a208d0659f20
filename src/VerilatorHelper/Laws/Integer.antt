-- ===== src/VerilatorHelper/Laws/Integer.antt =====
-- What `GetDebugRegister` leaves in an entry of the group Integer.
use rsd_mp.Common.{ℕ, List, some, get_elem?, ◌≡◌, set}
use rsd_mp.VerilatorHelper.Stage.{ComplexIntegerExecutionStageDebugRegister}
use rsd_mp.VerilatorHelper.Stage.{ComplexIntegerIssueStageDebugRegister}
use rsd_mp.VerilatorHelper.Stage.{ComplexIntegerRegisterReadStageDebugRegister}
use rsd_mp.VerilatorHelper.Stage.{ComplexIntegerRegisterWriteStageDebugRegister}
use rsd_mp.VerilatorHelper.Stage.{IntegerExecutionStageDebugRegister}
use rsd_mp.VerilatorHelper.Stage.{IntegerIssueStageDebugRegister}
use rsd_mp.VerilatorHelper.Stage.{IntegerRegisterReadStageDebugRegister}
use rsd_mp.VerilatorHelper.Stage.{IntegerRegisterWriteStageDebugRegister, OpId}
use rsd_mp.VerilatorHelper.Accessors.{Accessors}
use rsd_mp.VerilatorHelper.Get.{get_op_id, get_int_is_reg, get_int_rr_reg, get_int_ex_reg}
use rsd_mp.VerilatorHelper.Get.{get_int_rw_reg, get_complex_is_reg, get_complex_rr_reg}
use rsd_mp.VerilatorHelper.Get.{get_complex_ex_reg, get_complex_rw_reg}
use rsd_mp.VerilatorHelper.Laws.Base.{each_entry, each_unstepped_entry}

abbrev op_id : Accessors → ℕ → OpId
op_id h raw = record { sid = h.op_id_sid raw; mid = h.op_id_mid raw }

-- Entry `i` after the reading.
abbrev pub int_is_reg_read : Accessors → ℕ → IntegerIssueStageDebugRegister
int_is_reg_read h i = record {
  valid = h.int_is_reg_valid i;
  flush = h.int_is_reg_flush i;
  op_id = op_id h (h.int_is_reg_op_id i);
}

pub get_int_is_reg_lem :
    (h : Accessors) (xs : List IntegerIssueStageDebugRegister) (i : ℕ)
    (s : IntegerIssueStageDebugRegister)
    → get_elem? xs i ≡ some s
    → get_elem? (get_int_is_reg h xs) i ≡ some (int_is_reg_read h i)
unfolding get_int_is_reg
get_int_is_reg_lem h xs i s e = each_entry _ _ i (each_entry _ _ i (each_entry _ _ i e))

-- Entry `i` after the reading.
abbrev pub int_rr_reg_read : Accessors → ℕ → IntegerRegisterReadStageDebugRegister
int_rr_reg_read h i = record {
  valid = h.int_rr_reg_valid i;
  flush = h.int_rr_reg_flush i;
  op_id = op_id h (h.int_rr_reg_op_id i);
}

pub get_int_rr_reg_lem :
    (h : Accessors) (xs : List IntegerRegisterReadStageDebugRegister) (i : ℕ)
    (s : IntegerRegisterReadStageDebugRegister)
    → get_elem? xs i ≡ some s
    → get_elem? (get_int_rr_reg h xs) i ≡ some (int_rr_reg_read h i)
unfolding get_int_rr_reg
get_int_rr_reg_lem h xs i s e = each_entry _ _ i (each_entry _ _ i (each_entry _ _ i e))

-- Entry `i` after the reading.
abbrev pub int_ex_reg_read : Accessors → ℕ → IntegerExecutionStageDebugRegister
int_ex_reg_read h i = record {
  valid = h.int_ex_reg_valid i;
  flush = h.int_ex_reg_flush i;
  op_id = op_id h (h.int_ex_reg_op_id i);
  data_out = h.int_ex_reg_data_out i;
  fu_op_a = h.int_ex_reg_fu_op_a i;
  fu_op_b = h.int_ex_reg_fu_op_b i;
  alu_code = h.int_ex_reg_alu_code i;
  op_type = h.int_ex_reg_op_type i;
  br_pred_miss = h.int_ex_reg_br_pred_miss i;
}

pub get_int_ex_reg_lem :
    (h : Accessors) (xs : List IntegerExecutionStageDebugRegister) (i : ℕ)
    (s : IntegerExecutionStageDebugRegister)
    → get_elem? xs i ≡ some s
    → get_elem? (get_int_ex_reg h xs) i ≡ some (int_ex_reg_read h i)
unfolding get_int_ex_reg
get_int_ex_reg_lem h xs i s e = each_entry _ _ i (
    each_entry _ _ i (
      each_entry _ _ i (
        each_entry _ _ i (
          each_entry _ _ i
            (each_entry _ _ i (each_entry _ _ i (each_entry _ _ i (each_entry _ _ i e))))))))

-- Entry `i` after the reading.
abbrev pub int_rw_reg_read : Accessors → ℕ → IntegerRegisterWriteStageDebugRegister
int_rw_reg_read h i = record {
  valid = h.int_rw_reg_valid i;
  flush = h.int_rw_reg_flush i;
  op_id = op_id h (h.int_rw_reg_op_id i);
}

pub get_int_rw_reg_lem :
    (h : Accessors) (xs : List IntegerRegisterWriteStageDebugRegister) (i : ℕ)
    (s : IntegerRegisterWriteStageDebugRegister)
    → get_elem? xs i ≡ some s
    → get_elem? (get_int_rw_reg h xs) i ≡ some (int_rw_reg_read h i)
unfolding get_int_rw_reg
get_int_rw_reg_lem h xs i s e = each_entry _ _ i (each_entry _ _ i (each_entry _ _ i e))

-- Entry `i` after the reading.
abbrev pub complex_is_reg_read : Accessors → ℕ → ComplexIntegerIssueStageDebugRegister
complex_is_reg_read h i = record {
  valid = h.complex_is_reg_valid i;
  flush = h.complex_is_reg_flush i;
  op_id = op_id h (h.complex_is_reg_op_id i);
}

pub get_complex_is_reg_lem :
    (h : Accessors) (xs : List ComplexIntegerIssueStageDebugRegister) (i : ℕ)
    (s : ComplexIntegerIssueStageDebugRegister)
    → get_elem? xs i ≡ some s
    → get_elem? (get_complex_is_reg h xs) i ≡ some (complex_is_reg_read h i)
unfolding get_complex_is_reg
get_complex_is_reg_lem h xs i s e = each_entry _ _ i (each_entry _ _ i (each_entry _ _ i e))

-- Entry `i` after the reading.
abbrev pub complex_rr_reg_read : Accessors → ℕ → ComplexIntegerRegisterReadStageDebugRegister
complex_rr_reg_read h i = record {
  valid = h.complex_rr_reg_valid i;
  flush = h.complex_rr_reg_flush i;
  op_id = op_id h (h.complex_rr_reg_op_id i);
}

pub get_complex_rr_reg_lem :
    (h : Accessors) (xs : List ComplexIntegerRegisterReadStageDebugRegister) (i : ℕ)
    (s : ComplexIntegerRegisterReadStageDebugRegister)
    → get_elem? xs i ≡ some s
    → get_elem? (get_complex_rr_reg h xs) i ≡ some (complex_rr_reg_read h i)
unfolding get_complex_rr_reg
get_complex_rr_reg_lem h xs i s e = each_entry _ _ i (each_entry _ _ i (each_entry _ _ i e))

-- Entry `i` after the reading, if it was `s` before.
abbrev pub complex_ex_reg_read :
    Accessors
    → ℕ
    → ComplexIntegerExecutionStageDebugRegister
    → ComplexIntegerExecutionStageDebugRegister
complex_ex_reg_read h i s = record s {
  flush = h.complex_ex_reg_flush i;
  valid = set s.valid 0 (h.complex_ex_reg_valid i);
  op_id = set s.op_id 0 (op_id h (h.complex_ex_reg_op_id 0));
  data_out = h.complex_ex_reg_data_out i;
  fu_op_a = h.complex_ex_reg_fu_op_a i;
  fu_op_b = h.complex_ex_reg_fu_op_b i;
}

pub get_complex_ex_reg_lem :
    (h : Accessors) (xs : List ComplexIntegerExecutionStageDebugRegister) (i : ℕ)
    (s : ComplexIntegerExecutionStageDebugRegister)
    → get_elem? xs i ≡ some s
    → get_elem? (get_complex_ex_reg h xs) i ≡ some (complex_ex_reg_read h i s)
unfolding get_complex_ex_reg
get_complex_ex_reg_lem h xs i s e =
    each_entry (λ i s. record s { fu_op_b = h.complex_ex_reg_fu_op_b i }) _ i
      (each_entry (λ i s. record s { fu_op_a = h.complex_ex_reg_fu_op_a i }) _ i
        (each_entry (λ i s. record s { data_out = h.complex_ex_reg_data_out i }) _ i
          (each_unstepped_entry
            (λ i s. record s { op_id = set s.op_id 0 (get_op_id h (h.complex_ex_reg_op_id i)) }) 0 _
            i
            (each_entry (λ i s. record s { valid = set s.valid 0 (h.complex_ex_reg_valid i) }) _ i
              (each_entry (λ i s. record s { flush = h.complex_ex_reg_flush i }) _ i e)))))

-- Entry `i` after the reading.
abbrev pub complex_rw_reg_read : Accessors → ℕ → ComplexIntegerRegisterWriteStageDebugRegister
complex_rw_reg_read h i = record {
  valid = h.complex_rw_reg_valid i;
  flush = h.complex_rw_reg_flush i;
  op_id = op_id h (h.complex_rw_reg_op_id i);
}

pub get_complex_rw_reg_lem :
    (h : Accessors) (xs : List ComplexIntegerRegisterWriteStageDebugRegister) (i : ℕ)
    (s : ComplexIntegerRegisterWriteStageDebugRegister)
    → get_elem? xs i ≡ some s
    → get_elem? (get_complex_rw_reg h xs) i ≡ some (complex_rw_reg_read h i)
unfolding get_complex_rw_reg
get_complex_rw_reg_lem h xs i s e = each_entry _ _ i (each_entry _ _ i (each_entry _ _ i e))
