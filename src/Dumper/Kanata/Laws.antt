-- ===== src/Dumper/Kanata/Laws.antt =====
-- Dumper.h, `DumpCycle`: every line is about an operation that the debug register has.
use rsd_mp.Common.{All, All-append}
use rsd_mp.VerilatorHelper.Register.{DebugRegister}
use rsd_mp.Dumper.Kanata.Operations.{
  IsOperation, in_np, in_if, in_pd, in_id, in_rn, in_ds, in_int_is, in_complex_is, in_mem_is,
  in_fp_is, in_int_rr, in_complex_rr, in_mem_rr, in_fp_rr, in_int_ex, in_mem_ex, in_mt, in_ma,
  in_int_rw, in_complex_rw, in_mem_rw, in_fp_rw, in_sc, in_complex_ex, in_fp_ex, in_wc, in_cm,
  decoded,
}
use rsd_mp.Dumper.Kanata.Lines.{
  dump_stage-IsOperation, for_each-All, code-IsOperation, commit-IsOperation, sc_loop-IsOperation,
  ex_stages-IsOperation,
}
use rsd_mp.Dumper.Kanata.FrontEnd.{
  np_lines, if_lines, pd_lines, id_lines, code_lines, rn_lines, ds_lines,
}
use rsd_mp.Dumper.Kanata.BackEnd.{
  int_is_lines, complex_is_lines, mem_is_lines, fp_is_lines, int_rr_lines, complex_rr_lines,
  mem_rr_lines, fp_rr_lines, int_rw_lines, complex_rw_lines, mem_rw_lines, fp_rw_lines, sc_lines,
  is_lines, rr_lines, rw_lines, cm_lines,
}
use rsd_mp.Dumper.Kanata.Execution.{int_ex_lines, complex_ex_lines, mem_ex_lines, fp_ex_lines}
use rsd_mp.Dumper.Kanata.Memory.{mt_lines, ma_lines}
use rsd_mp.Dumper.Kanata.{stage_lines}

np-IsOperation : (r : DebugRegister) → All (IsOperation r) (np_lines r)
unfolding np_lines
np-IsOperation r =
    for_each-All (IsOperation r) _ r.np_reg
      (λ i x e. dump_stage-IsOperation r _ _ _ _ _ _ _ (in_np i x e))

if-IsOperation : (r : DebugRegister) → All (IsOperation r) (if_lines r)
unfolding if_lines
if-IsOperation r =
    for_each-All (IsOperation r) _ r.if_reg
      (λ i x e. dump_stage-IsOperation r _ _ _ _ _ _ _ (in_if i x e))

pd-IsOperation : (r : DebugRegister) → All (IsOperation r) (pd_lines r)
unfolding pd_lines
pd-IsOperation r =
    for_each-All (IsOperation r) _ r.pd_reg
      (λ i x e. dump_stage-IsOperation r _ _ _ _ _ _ _ (in_pd i x e))

id-IsOperation : (r : DebugRegister) → All (IsOperation r) (id_lines r)
unfolding id_lines
id-IsOperation r =
    for_each-All (IsOperation r) _ r.id_reg
      (λ i x e. dump_stage-IsOperation r _ _ _ _ _ _ _ (in_id i x e))

code_lines-IsOperation : (r : DebugRegister) → All (IsOperation r) (code_lines r)
unfolding code_lines
code_lines-IsOperation r =
    for_each-All (IsOperation r) _ r.id_reg (λ i x e. code-IsOperation r _ _ _ _ _ (decoded i x e))

rn-IsOperation : (r : DebugRegister) → All (IsOperation r) (rn_lines r)
unfolding rn_lines
rn-IsOperation r =
    for_each-All (IsOperation r) _ r.rn_reg
      (λ i x e. dump_stage-IsOperation r _ _ _ _ _ _ _ (in_rn i x e))

ds-IsOperation : (r : DebugRegister) → All (IsOperation r) (ds_lines r)
unfolding ds_lines
ds-IsOperation r =
    for_each-All (IsOperation r) _ r.ds_reg
      (λ i x e. dump_stage-IsOperation r _ _ _ _ _ _ _ (in_ds i x e))

sc-IsOperation : (r : DebugRegister) → All (IsOperation r) (sc_lines r)
unfolding sc_lines
sc-IsOperation r = sc_loop-IsOperation r r.back_end_pipe_ctrl.stall r.scheduler r.issue_queue in_sc

is-IsOperation : (r : DebugRegister) → All (IsOperation r) (is_lines r)
unfolding is_lines int_is_lines complex_is_lines mem_is_lines fp_is_lines
is-IsOperation r =
    All-append (IsOperation r) _ _
      (for_each-All (IsOperation r) _ r.int_is_reg
        (λ i x e. dump_stage-IsOperation r _ _ _ _ _ _ _ (in_int_is i x e)))
      (All-append (IsOperation r) _ _
        (for_each-All (IsOperation r) _ r.complex_is_reg
          (λ i x e. dump_stage-IsOperation r _ _ _ _ _ _ _ (in_complex_is i x e)))
        (All-append (IsOperation r) _ _
          (for_each-All (IsOperation r) _ r.mem_is_reg
            (λ i x e. dump_stage-IsOperation r _ _ _ _ _ _ _ (in_mem_is i x e)))
          (for_each-All (IsOperation r) _ r.fp_is_reg
            (λ i x e. dump_stage-IsOperation r _ _ _ _ _ _ _ (in_fp_is i x e)))))

rr-IsOperation : (r : DebugRegister) → All (IsOperation r) (rr_lines r)
unfolding rr_lines int_rr_lines complex_rr_lines mem_rr_lines fp_rr_lines
rr-IsOperation r =
    All-append (IsOperation r) _ _
      (for_each-All (IsOperation r) _ r.int_rr_reg
        (λ i x e. dump_stage-IsOperation r _ _ _ _ _ _ _ (in_int_rr i x e)))
      (All-append (IsOperation r) _ _
        (for_each-All (IsOperation r) _ r.complex_rr_reg
          (λ i x e. dump_stage-IsOperation r _ _ _ _ _ _ _ (in_complex_rr i x e)))
        (All-append (IsOperation r) _ _
          (for_each-All (IsOperation r) _ r.mem_rr_reg
            (λ i x e. dump_stage-IsOperation r _ _ _ _ _ _ _ (in_mem_rr i x e)))
          (for_each-All (IsOperation r) _ r.fp_rr_reg
            (λ i x e. dump_stage-IsOperation r _ _ _ _ _ _ _ (in_fp_rr i x e)))))

int_ex-IsOperation : (r : DebugRegister) → All (IsOperation r) (int_ex_lines r)
unfolding int_ex_lines
int_ex-IsOperation r =
    for_each-All (IsOperation r) _ r.int_ex_reg
      (λ i x e. dump_stage-IsOperation r _ _ _ _ _ _ _ (in_int_ex i x e))

complex_ex-IsOperation : (r : DebugRegister) → All (IsOperation r) (complex_ex_lines r)
unfolding complex_ex_lines
complex_ex-IsOperation r =
    for_each-All (IsOperation r) _ r.complex_ex_reg
      (λ i x e. ex_stages-IsOperation r _ _ _ 0 x.valid x.op_id (λ j o. in_complex_ex i x j o e))

mem_ex-IsOperation : (r : DebugRegister) → All (IsOperation r) (mem_ex_lines r)
unfolding mem_ex_lines
mem_ex-IsOperation r =
    for_each-All (IsOperation r) _ r.mem_ex_reg
      (λ i x e. dump_stage-IsOperation r _ _ _ _ _ _ _ (in_mem_ex i x e))

fp_ex-IsOperation : (r : DebugRegister) → All (IsOperation r) (fp_ex_lines r)
unfolding fp_ex_lines
fp_ex-IsOperation r =
    for_each-All (IsOperation r) _ r.fp_ex_reg
      (λ i x e. ex_stages-IsOperation r _ _ _ 0 x.valid x.op_id (λ j o. in_fp_ex i x j o e))

mt-IsOperation : (r : DebugRegister) → All (IsOperation r) (mt_lines r)
unfolding mt_lines
mt-IsOperation r =
    for_each-All (IsOperation r) _ r.mt_reg
      (λ i x e. dump_stage-IsOperation r _ _ _ _ _ _ _ (in_mt i x e))

ma-IsOperation : (r : DebugRegister) → All (IsOperation r) (ma_lines r)
unfolding ma_lines
ma-IsOperation r =
    for_each-All (IsOperation r) _ r.ma_reg
      (λ i x e. dump_stage-IsOperation r _ _ _ _ _ _ _ (in_ma i x e))

rw-IsOperation : (r : DebugRegister) → All (IsOperation r) (rw_lines r)
unfolding rw_lines int_rw_lines complex_rw_lines mem_rw_lines fp_rw_lines
rw-IsOperation r =
    All-append (IsOperation r) _ _
      (for_each-All (IsOperation r) _ r.int_rw_reg
        (λ i x e. dump_stage-IsOperation r _ _ _ _ _ _ _ (in_int_rw i x e)))
      (All-append (IsOperation r) _ _
        (for_each-All (IsOperation r) _ r.complex_rw_reg
          (λ i x e. dump_stage-IsOperation r _ _ _ _ _ _ _ (in_complex_rw i x e)))
        (All-append (IsOperation r) _ _
          (for_each-All (IsOperation r) _ r.mem_rw_reg
            (λ i x e. dump_stage-IsOperation r _ _ _ _ _ _ _ (in_mem_rw i x e)))
          (for_each-All (IsOperation r) _ r.fp_rw_reg
            (λ i x e. dump_stage-IsOperation r _ _ _ _ _ _ _ (in_fp_rw i x e)))))

cm-IsOperation : (r : DebugRegister) → All (IsOperation r) (cm_lines r)
unfolding cm_lines
cm-IsOperation r =
    for_each-All (IsOperation r) _ r.cm_reg
      (λ i x e. commit-IsOperation r x.flush x.commit _ _ _ (in_wc i x e) (in_cm i x e))

-- The lines of all stages.
pub stage_lines-IsOperation : (r : DebugRegister) → All (IsOperation r) (stage_lines r)
unfolding stage_lines
stage_lines-IsOperation r = All-append (IsOperation r) _ _ (np-IsOperation r) (
    All-append (IsOperation r) _ _ (if-IsOperation r) (
      All-append (IsOperation r) _ _ (pd-IsOperation r) (
        All-append (IsOperation r) _ _ (id-IsOperation r) (
          All-append (IsOperation r) _ _ (code_lines-IsOperation r) (
            All-append (IsOperation r) _ _ (rn-IsOperation r) (
              All-append (IsOperation r) _ _ (ds-IsOperation r) (
                All-append (IsOperation r) _ _ (sc-IsOperation r) (
                  All-append (IsOperation r) _ _ (is-IsOperation r) (
                    All-append (IsOperation r) _ _ (rr-IsOperation r) (
                      All-append (IsOperation r) _ _ (int_ex-IsOperation r) (
                        All-append (IsOperation r) _ _ (complex_ex-IsOperation r) (
                          All-append (IsOperation r) _ _ (mem_ex-IsOperation r) (
                            All-append (IsOperation r) _ _ (fp_ex-IsOperation r) (
                              All-append (IsOperation r) _ _ (mt-IsOperation r) (
                                All-append (IsOperation r) _ _ (ma-IsOperation r) (
                                  All-append (IsOperation r) _ _ (rw-IsOperation r)
                                    (cm-IsOperation r)))))))))))))))))
