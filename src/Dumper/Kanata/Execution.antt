-- ===== src/Dumper/Kanata/Execution.antt =====
-- Dumper.h, `DumpCycle`: the execution stages.
use rsd_mp.Common.{List, [], ◌∷◌, ◌++◌, ℕ, suc, Bool, true, if◌then◌else◌, ◌==◌}
use rsd_mp.Common.Text.{Chars, codes}
use rsd_mp.Common.Format.{hex}
use rsd_mp.VerilatorHelper.Stage
use rsd_mp.VerilatorHelper.Stage.{OpId}
use rsd_mp.VerilatorHelper.Register.{DebugRegister}
use rsd_mp.Dumper.Kanata.Base.{LogLine, dump_stage, for_each, bin_to_str}
use rsd_mp.Dumper.Kanata.Base.{ks_ex}

int_ex_comment : Stage.IntegerExecutionStageDebugRegister → Chars
int_ex_comment x =
    codes "\\nd:0x"
    ++ (hex x.data_out
        ++ (codes " = fu(a:0x"
            ++ (hex x.fu_op_a
                ++ (codes ", b:0x"
                    ++ (hex x.fu_op_b
                        ++ (codes "), alu:0b"
                            ++ (bin_to_str x.alu_code 4 true
                                ++ (codes ", op:0b"
                                    ++ (bin_to_str x.op_type 3 true
                                        ++ (if x.br_pred_miss
                                            then codes "\\nBr-pred-miss-ex"
                                            else []))))))))))

unfoldable pub int_ex_lines : DebugRegister → List LogLine
unfolding for_each dump_stage int_ex_comment
int_ex_lines r =
    for_each
      (λ (x : Stage.IntegerExecutionStageDebugRegister).
        dump_stage ks_ex x.valid r.back_end_pipe_ctrl.stall x.flush x.op_id.sid x.op_id.mid
          (int_ex_comment x))
      r.int_ex_reg

-- The stages of one pipeline, from stage `j` on; only the first one has a comment.
unfoldable pub ex_stages : Bool → Bool → Chars → ℕ → List Bool → List OpId → List LogLine
ex_stages stall flush comment j [] os = []
ex_stages stall flush comment j (v ∷ vs) [] = []
ex_stages stall flush comment j (v ∷ vs) (o ∷ os) =
    dump_stage ks_ex v stall flush o.sid o.mid (if j == 0 then comment else [])
    ++ ex_stages stall flush comment (suc j) vs os

complex_ex_comment : Stage.ComplexIntegerExecutionStageDebugRegister → Chars
complex_ex_comment x =
    codes "\\nfu(a:0x" ++ (hex x.fu_op_a ++ (codes ", b:0x" ++ (hex x.fu_op_b ++ codes ")")))

unfoldable pub complex_ex_lines : DebugRegister → List LogLine
unfolding for_each ex_stages dump_stage complex_ex_comment
complex_ex_lines r =
    for_each
      (λ (x : Stage.ComplexIntegerExecutionStageDebugRegister).
        ex_stages r.back_end_pipe_ctrl.stall x.flush (complex_ex_comment x) 0 x.valid x.op_id)
      r.complex_ex_reg

-- MEM_MOP_TYPE_CSR of MicroOp.sv.
abbrev pub mem_mop_type_csr : ℕ
mem_mop_type_csr = 4

mem_ex_comment : Stage.MemoryExecutionStageDebugRegister → Chars
mem_ex_comment x =
    if x.op_type == mem_mop_type_csr
    then (codes "\\nd:0x"
        ++ (hex x.addr_out
            ++ (codes " = csr[0x"
                ++ (hex x.fu_op_a
                    ++ (codes "], csr[0x"
                        ++ (hex x.fu_op_a
                            ++ (codes "] <= fu(0x" ++ (hex x.fu_op_b ++ codes ")"))))))))
    else (codes "\\nd:0x"
        ++ (hex x.addr_out
            ++ (codes " = fu(a:0x"
                ++ (hex x.fu_op_a
                    ++ (codes ", b:0x"
                        ++ (hex x.fu_op_b
                            ++ (codes ")\\nop:0b"
                                ++ (bin_to_str x.op_type 3 true
                                    ++ (codes ", size:0b"
                                        ++ (bin_to_str x.size 2 true
                                            ++ (codes ", signed:0b"
                                                ++ bin_to_str (if x.is_signed then 1 else 0) 1
                                                    true)))))))))))

unfoldable pub mem_ex_lines : DebugRegister → List LogLine
unfolding for_each dump_stage mem_ex_comment
mem_ex_lines r =
    for_each
      (λ (x : Stage.MemoryExecutionStageDebugRegister).
        dump_stage ks_ex x.valid r.back_end_pipe_ctrl.stall x.flush x.op_id.sid x.op_id.mid
          (mem_ex_comment x))
      r.mem_ex_reg

fp_ex_comment : Stage.FpIntegerExecutionStageDebugRegister → Chars
fp_ex_comment x =
    codes "\\nfp-ex(a:0x"
    ++ (hex x.fu_op_a
        ++ (codes ", b:0x" ++ (hex x.fu_op_b ++ (codes ", c:0x" ++ (hex x.fu_op_c ++ codes ")")))))

unfoldable pub fp_ex_lines : DebugRegister → List LogLine
unfolding for_each ex_stages dump_stage fp_ex_comment
fp_ex_lines r =
    for_each
      (λ (x : Stage.FpIntegerExecutionStageDebugRegister).
        ex_stages r.back_end_pipe_ctrl.stall x.flush (fp_ex_comment x) 0 x.valid x.op_id)
      r.fp_ex_reg
