-- ===== src/Dumper/Kanata/Lines.antt =====
-- Dumper.h, `DumpCycle`: the loops over the entries of a stage write lines of operations.
use rsd_mp.Common.{
  ℕ, suc, List, [], ◌∷◌, Bool, true, false, if◌then◌else◌, ◌≡◌, refl, ap, some, get_elem?, All,
  All-append, ◌==◌,
}
use rsd_mp.Common.Text.{Chars}
use rsd_mp.VerilatorHelper.Stage
use rsd_mp.VerilatorHelper.Stage.{OpId}
use rsd_mp.VerilatorHelper.Register.{DebugRegister}
use rsd_mp.Dumper.Kanata.Base.{
  LogLine, dump_stage, dump_insn_code, for_each, ks_sc, ks_ex, ks_cm, ks_wc,
}
use rsd_mp.Dumper.Kanata.Operations.{IsIn, IsDecoded, IsOperation}
use rsd_mp.Dumper.Kanata.BackEnd.{sc_loop}
use rsd_mp.Dumper.Kanata.Execution.{ex_stages}

pub dump_stage-IsOperation :
    (r : DebugRegister) (id : ℕ) (valid stall clear : Bool) (sid mid : ℕ) (str : Chars)
    → (valid ≡ true → IsIn r id sid mid)
    → All (IsOperation r) (dump_stage id valid stall clear sid mid str)
unfolding dump_stage
dump_stage-IsOperation r id true stall clear sid mid str h = ((refl, h refl), tt)
dump_stage-IsOperation r id false stall clear sid mid str h = tt

pub for_each-All {ℓ} :
    {A : Type ℓ} (P : LogLine → Type 0) (f : A → List LogLine) (xs : List A)
    → ((i : ℕ) (x : A) → get_elem? xs i ≡ some x → All P (f x))
    → All P (for_each f xs)
unfolding for_each
for_each-All P f [] h = tt
for_each-All P f (x ∷ xs) h =
    All-append P (f x) (for_each f xs) (h 0 x refl) (for_each-All P f xs (λ i y e. h (suc i) y e))

pub code-IsOperation :
    (r : DebugRegister) (valid : Bool) (sid mid pc insn : ℕ)
    → (valid ≡ true → IsDecoded r sid mid pc insn)
    → All (IsOperation r) (if valid then dump_insn_code sid mid pc insn else [])
unfolding dump_insn_code
code-IsOperation r true sid mid pc insn h = (h refl, tt)
code-IsOperation r false sid mid pc insn h = tt

pub commit-IsOperation :
    (r : DebugRegister) (flush commit : Bool) (sid mid : ℕ) (str : Chars)
    → (flush ≡ true → IsIn r ks_wc sid mid)
    → (flush ≡ false → commit ≡ true → IsIn r ks_cm sid mid)
    → All (IsOperation r) (
        if flush
        then dump_stage ks_wc flush false true sid mid str
        else if commit
        then dump_stage ks_cm commit false false sid mid str
        else [])
unfolding dump_stage
commit-IsOperation r true commit sid mid str w c = ((refl, w refl), tt)
commit-IsOperation r false true sid mid str w c = ((refl, c refl refl), tt)
commit-IsOperation r false false sid mid str w c = tt

pub sc_loop-IsOperation :
    (r : DebugRegister) (stall : Bool) (xs : List Stage.SchedulerDebugRegister)
    (qs : List Stage.IssueQueueDebugRegister)
    → ((i : ℕ) (x : Stage.SchedulerDebugRegister) (q : Stage.IssueQueueDebugRegister)
        → get_elem? xs i ≡ some x
        → get_elem? qs i ≡ some q
        → x.valid ≡ true
        → IsIn r ks_sc q.op_id.sid q.op_id.mid)
    → All (IsOperation r) (sc_loop stall xs qs)
unfolding sc_loop
sc_loop-IsOperation r stall [] qs h = tt
sc_loop-IsOperation r stall (x ∷ xs) [] h = tt
sc_loop-IsOperation r stall (x ∷ xs) (q ∷ qs) h =
    All-append (IsOperation r) _ (sc_loop stall xs qs)
      (dump_stage-IsOperation r ks_sc x.valid stall q.flush q.op_id.sid q.op_id.mid []
        (h 0 x q refl refl))
      (sc_loop-IsOperation r stall xs qs (λ i x' q'. h (suc i) x' q'))

pub ex_stages-IsOperation :
    (r : DebugRegister) (stall flush : Bool) (comment : Chars) (j : ℕ) (vs : List Bool)
    (os : List OpId)
    → ((i : ℕ) (o : OpId)
        → get_elem? vs i ≡ some true
        → get_elem? os i ≡ some o
        → IsIn r ks_ex o.sid o.mid)
    → All (IsOperation r) (ex_stages stall flush comment j vs os)
unfolding ex_stages
ex_stages-IsOperation r stall flush comment j [] os h = tt
ex_stages-IsOperation r stall flush comment j (v ∷ vs) [] h = tt
ex_stages-IsOperation r stall flush comment j (v ∷ vs) (o ∷ os) h =
    All-append (IsOperation r) _ (ex_stages stall flush comment (suc j) vs os)
      (dump_stage-IsOperation r ks_ex v stall flush o.sid o.mid (if j == 0 then comment else [])
        (λ e. h 0 o (ap some e) refl))
      (ex_stages-IsOperation r stall flush comment (suc j) vs os (λ i o'. h (suc i) o'))
