-- ===== src/Dumper/Kanata/Operations.antt =====
-- Dumper.h, `DumpCycle`: what the operations are of which it writes lines.
use rsd_mp.Common.{ℕ, true, false, ◌≡◌, some, get_elem?}
use rsd_mp.VerilatorHelper.Stage
use rsd_mp.VerilatorHelper.Stage.{OpId}
use rsd_mp.VerilatorHelper.Register.{DebugRegister}
use rsd_mp.Dumper.Kanata.Base.{
  LogLine, header, cycle, stage, code, ks_np, ks_if, ks_pd, ks_id, ks_rn, ks_ds, ks_sc, ks_is,
  ks_rr, ks_ex, ks_ma, ks_mt, ks_rw, ks_wc, ks_cm,
}

-- In the debug register `r`, a valid entry of the stage with this number holds the operation with
-- these two identifiers. The scheduler says which entries of the issue queue are valid. A stage of
-- commit is flushed or commits.
pub data IsIn (r : DebugRegister) : ℕ → ℕ → ℕ → Type 0 where
  in_np :
      (i : ℕ) (x : Stage.NextPcStageDebugRegister)
      → get_elem? r.np_reg i ≡ some x
      → x.valid ≡ true
      → IsIn r ks_np x.sid 0
  in_if :
      (i : ℕ) (x : Stage.FetchStageDebugRegister)
      → get_elem? r.if_reg i ≡ some x
      → x.valid ≡ true
      → IsIn r ks_if x.sid 0
  in_pd :
      (i : ℕ) (x : Stage.PreDecodeStageDebugRegister)
      → get_elem? r.pd_reg i ≡ some x
      → x.valid ≡ true
      → IsIn r ks_pd x.sid 0
  in_id :
      (i : ℕ) (x : Stage.DecodeStageDebugRegister)
      → get_elem? r.id_reg i ≡ some x
      → x.valid ≡ true
      → IsIn r ks_id x.op_id.sid x.op_id.mid
  in_rn :
      (i : ℕ) (x : Stage.RenameStageDebugRegister)
      → get_elem? r.rn_reg i ≡ some x
      → x.valid ≡ true
      → IsIn r ks_rn x.op_id.sid x.op_id.mid
  in_ds :
      (i : ℕ) (x : Stage.DispatchStageDebugRegister)
      → get_elem? r.ds_reg i ≡ some x
      → x.valid ≡ true
      → IsIn r ks_ds x.op_id.sid x.op_id.mid
  in_int_is :
      (i : ℕ) (x : Stage.IntegerIssueStageDebugRegister)
      → get_elem? r.int_is_reg i ≡ some x
      → x.valid ≡ true
      → IsIn r ks_is x.op_id.sid x.op_id.mid
  in_complex_is :
      (i : ℕ) (x : Stage.ComplexIntegerIssueStageDebugRegister)
      → get_elem? r.complex_is_reg i ≡ some x
      → x.valid ≡ true
      → IsIn r ks_is x.op_id.sid x.op_id.mid
  in_mem_is :
      (i : ℕ) (x : Stage.MemoryIssueStageDebugRegister)
      → get_elem? r.mem_is_reg i ≡ some x
      → x.valid ≡ true
      → IsIn r ks_is x.op_id.sid x.op_id.mid
  in_fp_is :
      (i : ℕ) (x : Stage.FpIntegerIssueStageDebugRegister)
      → get_elem? r.fp_is_reg i ≡ some x
      → x.valid ≡ true
      → IsIn r ks_is x.op_id.sid x.op_id.mid
  in_int_rr :
      (i : ℕ) (x : Stage.IntegerRegisterReadStageDebugRegister)
      → get_elem? r.int_rr_reg i ≡ some x
      → x.valid ≡ true
      → IsIn r ks_rr x.op_id.sid x.op_id.mid
  in_complex_rr :
      (i : ℕ) (x : Stage.ComplexIntegerRegisterReadStageDebugRegister)
      → get_elem? r.complex_rr_reg i ≡ some x
      → x.valid ≡ true
      → IsIn r ks_rr x.op_id.sid x.op_id.mid
  in_mem_rr :
      (i : ℕ) (x : Stage.MemoryRegisterReadStageDebugRegister)
      → get_elem? r.mem_rr_reg i ≡ some x
      → x.valid ≡ true
      → IsIn r ks_rr x.op_id.sid x.op_id.mid
  in_fp_rr :
      (i : ℕ) (x : Stage.FpIntegerRegisterReadStageDebugRegister)
      → get_elem? r.fp_rr_reg i ≡ some x
      → x.valid ≡ true
      → IsIn r ks_rr x.op_id.sid x.op_id.mid
  in_int_ex :
      (i : ℕ) (x : Stage.IntegerExecutionStageDebugRegister)
      → get_elem? r.int_ex_reg i ≡ some x
      → x.valid ≡ true
      → IsIn r ks_ex x.op_id.sid x.op_id.mid
  in_mem_ex :
      (i : ℕ) (x : Stage.MemoryExecutionStageDebugRegister)
      → get_elem? r.mem_ex_reg i ≡ some x
      → x.valid ≡ true
      → IsIn r ks_ex x.op_id.sid x.op_id.mid
  in_mt :
      (i : ℕ) (x : Stage.MemoryTagAccessStageDebugRegister)
      → get_elem? r.mt_reg i ≡ some x
      → x.valid ≡ true
      → IsIn r ks_mt x.op_id.sid x.op_id.mid
  in_ma :
      (i : ℕ) (x : Stage.MemoryAccessStageDebugRegister)
      → get_elem? r.ma_reg i ≡ some x
      → x.valid ≡ true
      → IsIn r ks_ma x.op_id.sid x.op_id.mid
  in_int_rw :
      (i : ℕ) (x : Stage.IntegerRegisterWriteStageDebugRegister)
      → get_elem? r.int_rw_reg i ≡ some x
      → x.valid ≡ true
      → IsIn r ks_rw x.op_id.sid x.op_id.mid
  in_complex_rw :
      (i : ℕ) (x : Stage.ComplexIntegerRegisterWriteStageDebugRegister)
      → get_elem? r.complex_rw_reg i ≡ some x
      → x.valid ≡ true
      → IsIn r ks_rw x.op_id.sid x.op_id.mid
  in_mem_rw :
      (i : ℕ) (x : Stage.MemoryRegisterWriteStageDebugRegister)
      → get_elem? r.mem_rw_reg i ≡ some x
      → x.valid ≡ true
      → IsIn r ks_rw x.op_id.sid x.op_id.mid
  in_fp_rw :
      (i : ℕ) (x : Stage.FpIntegerRegisterWriteStageDebugRegister)
      → get_elem? r.fp_rw_reg i ≡ some x
      → x.valid ≡ true
      → IsIn r ks_rw x.op_id.sid x.op_id.mid
  in_sc :
      (i : ℕ) (x : Stage.SchedulerDebugRegister) (q : Stage.IssueQueueDebugRegister)
      → get_elem? r.scheduler i ≡ some x
      → get_elem? r.issue_queue i ≡ some q
      → x.valid ≡ true
      → IsIn r ks_sc q.op_id.sid q.op_id.mid
  in_complex_ex :
      (i : ℕ) (x : Stage.ComplexIntegerExecutionStageDebugRegister) (j : ℕ) (o : OpId)
      → get_elem? r.complex_ex_reg i ≡ some x
      → get_elem? x.valid j ≡ some true
      → get_elem? x.op_id j ≡ some o
      → IsIn r ks_ex o.sid o.mid
  in_fp_ex :
      (i : ℕ) (x : Stage.FpIntegerExecutionStageDebugRegister) (j : ℕ) (o : OpId)
      → get_elem? r.fp_ex_reg i ≡ some x
      → get_elem? x.valid j ≡ some true
      → get_elem? x.op_id j ≡ some o
      → IsIn r ks_ex o.sid o.mid
  in_wc :
      (i : ℕ) (x : Stage.CommitStageDebugRegister)
      → get_elem? r.cm_reg i ≡ some x
      → x.flush ≡ true
      → IsIn r ks_wc x.op_id.sid x.op_id.mid
  in_cm :
      (i : ℕ) (x : Stage.CommitStageDebugRegister)
      → get_elem? r.cm_reg i ≡ some x
      → x.flush ≡ false
      → x.commit ≡ true
      → IsIn r ks_cm x.op_id.sid x.op_id.mid

-- In the debug register `r`, a valid entry of the decode stage holds this operation, with this PC and
-- this instruction.
pub data IsDecoded (r : DebugRegister) : ℕ → ℕ → ℕ → ℕ → Type 0 where
  decoded :
      (i : ℕ) (x : Stage.DecodeStageDebugRegister)
      → get_elem? r.id_reg i ≡ some x
      → x.valid ≡ true
      → IsDecoded r x.op_id.sid x.op_id.mid x.pc x.insn

-- A line of an operation that `r` has: in the stage of the line, which is marked as valid, or with
-- the code of the line.
abbrev pub IsOperation : DebugRegister → LogLine → Type 0
IsOperation r header = ⊥
IsOperation r (cycle n) = ⊥
IsOperation r (stage id valid stall clear sid mid str) = (valid ≡ true) × IsIn r id sid mid
IsOperation r (code sid mid pc insn) = IsDecoded r sid mid pc insn
