-- ===== src/Dumper/Kanata/Complete.antt =====
-- Dumper.h, `DumpCycle`: the lines are those of the operations that the debug register has.
use rsd_mp.Common.{ℕ, List, [], ◌∷◌, ◌++◌, some, ◌≡◌, refl, ap, subst, All, get_elem?, append-nil}
use rsd_mp.VerilatorHelper.Register.{DebugRegister}
use rsd_mp.Dumper.Kanata.Base.{LogLine, header, cycle, stage, code, for_each, ks_is, ks_rr, ks_rw}
use rsd_mp.Dumper.Kanata.Operations.{
  IsIn, IsDecoded, IsOperation, in_np, in_if, in_pd, in_id, in_rn, in_ds, in_int_is, in_complex_is,
  in_mem_is, in_fp_is, in_int_rr, in_complex_rr, in_mem_rr, in_fp_rr, in_int_ex, in_mem_ex, in_mt,
  in_ma, in_int_rw, in_complex_rw, in_mem_rw, in_fp_rw, in_sc, in_complex_ex, in_fp_ex, in_wc,
  in_cm, decoded,
}
use rsd_mp.Dumper.Kanata.Laws.{stage_lines-IsOperation}
use rsd_mp.Dumper.Kanata.Has.{
  Has, IsAbout, dump_stage-Has, for_each-Has, code-Has, flush-Has, commit-Has, sc_loop-Has,
  ex_stages-Has,
}
use rsd_mp.Dumper.Kanata.FrontEnd.{
  np_lines, if_lines, pd_lines, id_lines, code_lines, rn_lines, ds_lines,
}
use rsd_mp.Dumper.Kanata.BackEnd.{
  int_is_lines, complex_is_lines, mem_is_lines, fp_is_lines, int_rr_lines, complex_rr_lines,
  mem_rr_lines, fp_rr_lines, int_rw_lines, complex_rw_lines, mem_rw_lines, fp_rw_lines, sc_lines,
  is_lines, rr_lines, rw_lines, cm_lines,
}
use rsd_mp.Dumper.Kanata.Execution.{int_ex_lines, complex_ex_lines, mem_ex_lines, fp_ex_lines}
use rsd_mp.Dumper.Kanata.Memory.{mt_lines, ma_lines}
use rsd_mp.Dumper.Kanata.{stage_lines}

-- The lines, part by part.
abbrev parts : DebugRegister → List (List LogLine)
parts r =
    np_lines r
    ∷ if_lines r
    ∷ pd_lines r
    ∷ id_lines r
    ∷ code_lines r
    ∷ rn_lines r
    ∷ ds_lines r
    ∷ sc_lines r
    ∷ is_lines r
    ∷ rr_lines r
    ∷ int_ex_lines r
    ∷ complex_ex_lines r
    ∷ mem_ex_lines r
    ∷ fp_ex_lines r
    ∷ mt_lines r
    ∷ ma_lines r
    ∷ rw_lines r
    ∷ cm_lines r
    ∷ []

parts-stage_lines : (r : DebugRegister) → for_each (λ ls. ls) (parts r) ≡ stage_lines r
unfolding stage_lines for_each
parts-stage_lines r =
    ap
      (λ (t : List LogLine).
        np_lines r
        ++ (if_lines r
            ++ (pd_lines r
                ++ (id_lines r
                    ++ (code_lines r
                        ++ (rn_lines r
                            ++ (ds_lines r
                                ++ (sc_lines r
                                    ++ (is_lines r
                                        ++ (rr_lines r
                                            ++ (int_ex_lines r
                                                ++ (complex_ex_lines r
                                                    ++ (mem_ex_lines r
                                                        ++ (fp_ex_lines r
                                                            ++ (mt_lines r
                                                            ++ (ma_lines r
                                                            ++ (rw_lines r ++ (t))))))))))))))))))
      (append-nil (cm_lines r))

in_part :
    (P : LogLine → Type 0) (r : DebugRegister) (k : ℕ) (ls : List LogLine)
    → get_elem? (parts r) k ≡ some ls
    → Has P ls
    → Has P (stage_lines r)
in_part P r k ls e h =
    subst (Has P) (parts-stage_lines r) (for_each-Has P (λ ls. ls) (parts r) k ls e h)

-- Of the four pipelines.
in_pipe :
    (P : LogLine → Type 0) (a b c d : List LogLine) (k : ℕ) (ls : List LogLine)
    → get_elem? (a ∷ b ∷ c ∷ d ∷ []) k ≡ some ls
    → Has P ls
    → Has P (a ++ (b ++ (c ++ d)))
unfolding for_each
in_pipe P a b c d k ls e h =
    subst (λ t. Has P (a ++ (b ++ (c ++ t)))) (append-nil d)
      (for_each-Has P (λ ls. ls) (a ∷ b ∷ c ∷ d ∷ []) k ls e h)

staged :
    (r : DebugRegister) {id sid mid : ℕ}
    → IsIn r id sid mid
    → Has (IsAbout id sid mid) (stage_lines r)
unfolding np_lines if_lines pd_lines id_lines rn_lines ds_lines sc_lines is_lines rr_lines
    int_ex_lines complex_ex_lines mem_ex_lines fp_ex_lines mt_lines ma_lines rw_lines cm_lines
    int_is_lines complex_is_lines mem_is_lines fp_is_lines int_rr_lines complex_rr_lines
    mem_rr_lines fp_rr_lines int_rw_lines complex_rw_lines mem_rw_lines fp_rw_lines
staged r (in_np i x e v) =
    in_part _ r 0 _ refl (for_each-Has _ _ _ i x e (dump_stage-Has _ _ _ _ _ _ _ v))
staged r (in_if i x e v) =
    in_part _ r 1 _ refl (for_each-Has _ _ _ i x e (dump_stage-Has _ _ _ _ _ _ _ v))
staged r (in_pd i x e v) =
    in_part _ r 2 _ refl (for_each-Has _ _ _ i x e (dump_stage-Has _ _ _ _ _ _ _ v))
staged r (in_id i x e v) =
    in_part _ r 3 _ refl (for_each-Has _ _ _ i x e (dump_stage-Has _ _ _ _ _ _ _ v))
staged r (in_rn i x e v) =
    in_part _ r 5 _ refl (for_each-Has _ _ _ i x e (dump_stage-Has _ _ _ _ _ _ _ v))
staged r (in_ds i x e v) =
    in_part _ r 6 _ refl (for_each-Has _ _ _ i x e (dump_stage-Has _ _ _ _ _ _ _ v))
staged r (in_int_is i x e v) = in_part _ r 8 _ refl (
    in_pipe (IsAbout ks_is x.op_id.sid x.op_id.mid) (int_is_lines r) (complex_is_lines r)
      (mem_is_lines r) (fp_is_lines r) 0 _ refl
      (for_each-Has _ _ _ i x e (dump_stage-Has _ _ _ _ _ _ _ v)))
staged r (in_complex_is i x e v) = in_part _ r 8 _ refl (
    in_pipe (IsAbout ks_is x.op_id.sid x.op_id.mid) (int_is_lines r) (complex_is_lines r)
      (mem_is_lines r) (fp_is_lines r) 1 _ refl
      (for_each-Has _ _ _ i x e (dump_stage-Has _ _ _ _ _ _ _ v)))
staged r (in_mem_is i x e v) = in_part _ r 8 _ refl (
    in_pipe (IsAbout ks_is x.op_id.sid x.op_id.mid) (int_is_lines r) (complex_is_lines r)
      (mem_is_lines r) (fp_is_lines r) 2 _ refl
      (for_each-Has _ _ _ i x e (dump_stage-Has _ _ _ _ _ _ _ v)))
staged r (in_fp_is i x e v) = in_part _ r 8 _ refl (
    in_pipe (IsAbout ks_is x.op_id.sid x.op_id.mid) (int_is_lines r) (complex_is_lines r)
      (mem_is_lines r) (fp_is_lines r) 3 _ refl
      (for_each-Has _ _ _ i x e (dump_stage-Has _ _ _ _ _ _ _ v)))
staged r (in_int_rr i x e v) = in_part _ r 9 _ refl (
    in_pipe (IsAbout ks_rr x.op_id.sid x.op_id.mid) (int_rr_lines r) (complex_rr_lines r)
      (mem_rr_lines r) (fp_rr_lines r) 0 _ refl
      (for_each-Has _ _ _ i x e (dump_stage-Has _ _ _ _ _ _ _ v)))
staged r (in_complex_rr i x e v) = in_part _ r 9 _ refl (
    in_pipe (IsAbout ks_rr x.op_id.sid x.op_id.mid) (int_rr_lines r) (complex_rr_lines r)
      (mem_rr_lines r) (fp_rr_lines r) 1 _ refl
      (for_each-Has _ _ _ i x e (dump_stage-Has _ _ _ _ _ _ _ v)))
staged r (in_mem_rr i x e v) = in_part _ r 9 _ refl (
    in_pipe (IsAbout ks_rr x.op_id.sid x.op_id.mid) (int_rr_lines r) (complex_rr_lines r)
      (mem_rr_lines r) (fp_rr_lines r) 2 _ refl
      (for_each-Has _ _ _ i x e (dump_stage-Has _ _ _ _ _ _ _ v)))
staged r (in_fp_rr i x e v) = in_part _ r 9 _ refl (
    in_pipe (IsAbout ks_rr x.op_id.sid x.op_id.mid) (int_rr_lines r) (complex_rr_lines r)
      (mem_rr_lines r) (fp_rr_lines r) 3 _ refl
      (for_each-Has _ _ _ i x e (dump_stage-Has _ _ _ _ _ _ _ v)))
staged r (in_int_ex i x e v) =
    in_part _ r 10 _ refl (for_each-Has _ _ _ i x e (dump_stage-Has _ _ _ _ _ _ _ v))
staged r (in_mem_ex i x e v) =
    in_part _ r 12 _ refl (for_each-Has _ _ _ i x e (dump_stage-Has _ _ _ _ _ _ _ v))
staged r (in_mt i x e v) =
    in_part _ r 14 _ refl (for_each-Has _ _ _ i x e (dump_stage-Has _ _ _ _ _ _ _ v))
staged r (in_ma i x e v) =
    in_part _ r 15 _ refl (for_each-Has _ _ _ i x e (dump_stage-Has _ _ _ _ _ _ _ v))
staged r (in_int_rw i x e v) = in_part _ r 16 _ refl (
    in_pipe (IsAbout ks_rw x.op_id.sid x.op_id.mid) (int_rw_lines r) (complex_rw_lines r)
      (mem_rw_lines r) (fp_rw_lines r) 0 _ refl
      (for_each-Has _ _ _ i x e (dump_stage-Has _ _ _ _ _ _ _ v)))
staged r (in_complex_rw i x e v) = in_part _ r 16 _ refl (
    in_pipe (IsAbout ks_rw x.op_id.sid x.op_id.mid) (int_rw_lines r) (complex_rw_lines r)
      (mem_rw_lines r) (fp_rw_lines r) 1 _ refl
      (for_each-Has _ _ _ i x e (dump_stage-Has _ _ _ _ _ _ _ v)))
staged r (in_mem_rw i x e v) = in_part _ r 16 _ refl (
    in_pipe (IsAbout ks_rw x.op_id.sid x.op_id.mid) (int_rw_lines r) (complex_rw_lines r)
      (mem_rw_lines r) (fp_rw_lines r) 2 _ refl
      (for_each-Has _ _ _ i x e (dump_stage-Has _ _ _ _ _ _ _ v)))
staged r (in_fp_rw i x e v) = in_part _ r 16 _ refl (
    in_pipe (IsAbout ks_rw x.op_id.sid x.op_id.mid) (int_rw_lines r) (complex_rw_lines r)
      (mem_rw_lines r) (fp_rw_lines r) 3 _ refl
      (for_each-Has _ _ _ i x e (dump_stage-Has _ _ _ _ _ _ _ v)))
staged r (in_sc i x q e e' v) = in_part _ r 7 _ refl (sc_loop-Has _ _ _ i x q e e' v)
staged r (in_complex_ex i x j o e v e') =
    in_part _ r 11 _ refl
      (for_each-Has _ _ _ i x e (ex_stages-Has _ _ _ 0 x.valid x.op_id j o v e'))
staged r (in_fp_ex i x j o e v e') =
    in_part _ r 13 _ refl
      (for_each-Has _ _ _ i x e (ex_stages-Has _ _ _ 0 x.valid x.op_id j o v e'))
staged r (in_wc i x e f) =
    in_part _ r 17 _ refl (for_each-Has _ _ _ i x e (flush-Has x.flush x.commit _ _ _ f))
staged r (in_cm i x e f c) =
    in_part _ r 17 _ refl (for_each-Has _ _ _ i x e (commit-Has x.flush x.commit _ _ _ f c))

-- The line with the code of an instruction.
abbrev pub IsCode : ℕ → ℕ → ℕ → ℕ → LogLine → Type 0
IsCode sid mid pc insn header = ⊥
IsCode sid mid pc insn (cycle n) = ⊥
IsCode sid mid pc insn (stage id valid stall clear sid' mid' str) = ⊥
IsCode sid mid pc insn (code sid' mid' pc' insn') =
    (sid' ≡ sid) × (mid' ≡ mid) × (pc' ≡ pc) × (insn' ≡ insn)

coded :
    (r : DebugRegister) {sid mid pc insn : ℕ}
    → IsDecoded r sid mid pc insn
    → Has (IsCode sid mid pc insn) (stage_lines r)
unfolding code_lines
coded r (decoded i x e v) =
    in_part _ r 4 _ refl
      (for_each-Has _ _ _ i x e (code-Has _ x.valid _ _ _ _ v (refl, refl, refl, refl)))

-- Every line is about an operation of the debug register, and every operation that a stage of it has
-- valid and every instruction that its decode stage has valid has its line.
pub record IsCycleOf (r : DebugRegister) (lines : List LogLine) : Type 0 where
  pub sound : All (IsOperation r) lines
  pub staged : (id sid mid : ℕ) → IsIn r id sid mid → Has (IsAbout id sid mid) lines
  pub coded :
      (sid mid pc insn : ℕ) → IsDecoded r sid mid pc insn → Has (IsCode sid mid pc insn) lines

-- The lines that `DumpCycle` writes after the two of the cycle are those of the operations that the
-- debug register has. A line of a stage is marked as valid and has the identifiers of the operation in
-- a valid entry of this very stage, and each such operation has such a line; a line of an instruction
-- has the identifiers, the PC and the instruction of a valid entry of the decode stage, and each such
-- entry has such a line.
pub stage_lines-IsCycleOf : (r : DebugRegister) → IsCycleOf r (stage_lines r)
stage_lines-IsCycleOf r = record {
  sound = stage_lines-IsOperation r;
  staged = λ id sid mid h. staged r h;
  coded = λ sid mid pc insn h. coded r h;
}
