-- ===== src/Dumper/Kanata/Has.antt =====
-- Dumper.h, `DumpCycle`: the loops over the entries of a stage write a line for each operation.
use rsd_mp.Common.{
  ℕ, zero, suc, List, [], ◌∷◌, ◌++◌, Bool, true, false, if◌then◌else◌, ◌≡◌, refl, sym, subst, some,
  some_eq, get_elem?, ◌⊎◌, inl, inr, ◌==◌, none,
}
use rsd_mp.Common.Text.{Chars}
use rsd_mp.VerilatorHelper.Stage
use rsd_mp.VerilatorHelper.Stage.{OpId}
use rsd_mp.Dumper.Kanata.Base.{
  LogLine, header, cycle, stage, code, dump_stage, dump_insn_code, for_each, ks_sc, ks_ex, ks_cm,
  ks_wc,
}
use rsd_mp.Dumper.Kanata.BackEnd.{sc_loop}
use rsd_mp.Dumper.Kanata.Execution.{ex_stages}

-- One of the lines has the property.
abbrev pub Has : (LogLine → Type 0) → List LogLine → Type 0
Has P [] = ⊥
Has P (x ∷ xs) = P x ⊎ Has P xs

pub Has-left : (P : LogLine → Type 0) (xs ys : List LogLine) → Has P xs → Has P (xs ++ ys)
Has-left P [] ys h = absurd h
Has-left P (x ∷ xs) ys (inl h) = inl h
Has-left P (x ∷ xs) ys (inr h) = inr (Has-left P xs ys h)

pub Has-right : (P : LogLine → Type 0) (xs ys : List LogLine) → Has P ys → Has P (xs ++ ys)
Has-right P [] ys h = h
Has-right P (x ∷ xs) ys h = inr (Has-right P xs ys h)

-- A line of this stage for this operation, marked as valid.
abbrev pub IsAbout : ℕ → ℕ → ℕ → LogLine → Type 0
IsAbout id sid mid header = ⊥
IsAbout id sid mid (cycle n) = ⊥
IsAbout id sid mid (stage id' valid stall clear sid' mid' str) =
    (id' ≡ id) × (valid ≡ true) × (sid' ≡ sid) × (mid' ≡ mid)
IsAbout id sid mid (code sid' mid' pc insn) = ⊥

pub dump_stage-Has :
    (id : ℕ) (valid stall clear : Bool) (sid mid : ℕ) (str : Chars)
    → valid ≡ true
    → Has (IsAbout id sid mid) (dump_stage id valid stall clear sid mid str)
unfolding dump_stage
dump_stage-Has id true stall clear sid mid str v = inl (refl, refl, refl, refl)
dump_stage-Has id false stall clear sid mid str v = cc

none-some {ℓ} : {A : Type ℓ} {x : A} → none ≡ some x → ⊥
none-some e = cc

pub for_each-Has {ℓ} :
    {A : Type ℓ} (P : LogLine → Type 0) (f : A → List LogLine) (xs : List A) (i : ℕ) (x : A)
    → get_elem? xs i ≡ some x
    → Has P (f x)
    → Has P (for_each f xs)
unfolding for_each
for_each-Has P f [] i x e h = absurd (none-some e)
for_each-Has P f (y ∷ xs) zero x e h =
    Has-left P (f y) (for_each f xs) (subst (λ t. Has P (f t)) (sym (some_eq e)) h)
for_each-Has P f (y ∷ xs) (suc i) x e h =
    Has-right P (f y) (for_each f xs) (for_each-Has P f xs i x e h)

pub code-Has :
    (P : LogLine → Type 0) (valid : Bool) (sid mid pc insn : ℕ)
    → valid ≡ true
    → P (code sid mid pc insn)
    → Has P (if valid then dump_insn_code sid mid pc insn else [])
unfolding dump_insn_code
code-Has P true sid mid pc insn v h = inl h
code-Has P false sid mid pc insn v h = cc

pub flush-Has :
    (flush commit : Bool) (sid mid : ℕ) (str : Chars)
    → flush ≡ true
    → Has (IsAbout ks_wc sid mid) (
        if flush
        then dump_stage ks_wc flush false true sid mid str
        else if commit
        then dump_stage ks_cm commit false false sid mid str
        else [])
unfolding dump_stage
flush-Has true commit sid mid str f = inl (refl, refl, refl, refl)
flush-Has false commit sid mid str f = cc

pub commit-Has :
    (flush commit : Bool) (sid mid : ℕ) (str : Chars)
    → flush ≡ false
    → commit ≡ true
    → Has (IsAbout ks_cm sid mid) (
        if flush
        then dump_stage ks_wc flush false true sid mid str
        else if commit
        then dump_stage ks_cm commit false false sid mid str
        else [])
unfolding dump_stage
commit-Has true commit sid mid str f c = cc
commit-Has false true sid mid str f c = inl (refl, refl, refl, refl)
commit-Has false false sid mid str f c = cc

pub sc_loop-Has :
    (stall : Bool) (xs : List Stage.SchedulerDebugRegister)
    (qs : List Stage.IssueQueueDebugRegister) (i : ℕ) (x : Stage.SchedulerDebugRegister)
    (q : Stage.IssueQueueDebugRegister)
    → get_elem? xs i ≡ some x
    → get_elem? qs i ≡ some q
    → x.valid ≡ true
    → Has (IsAbout ks_sc q.op_id.sid q.op_id.mid) (sc_loop stall xs qs)
unfolding sc_loop
sc_loop-Has stall [] qs i x q e e' v = absurd (none-some e)
sc_loop-Has stall (y ∷ xs) [] i x q e e' v = absurd (none-some e')
sc_loop-Has stall (y ∷ xs) (p ∷ qs) zero x q e e' v = Has-left _ _ (sc_loop stall xs qs) (
    subst
      (λ t.
        Has (IsAbout ks_sc t.op_id.sid t.op_id.mid)
          (dump_stage ks_sc y.valid stall p.flush p.op_id.sid p.op_id.mid []))
      (some_eq e')
      (dump_stage-Has ks_sc y.valid stall p.flush p.op_id.sid p.op_id.mid []
        (subst (λ t. t.valid ≡ true) (sym (some_eq e)) v)))
sc_loop-Has stall (y ∷ xs) (p ∷ qs) (suc i) x q e e' v =
    Has-right _ _ (sc_loop stall xs qs) (sc_loop-Has stall xs qs i x q e e' v)

pub ex_stages-Has :
    (stall flush : Bool) (comment : Chars) (j : ℕ) (vs : List Bool) (os : List OpId) (i : ℕ)
    (o : OpId)
    → get_elem? vs i ≡ some true
    → get_elem? os i ≡ some o
    → Has (IsAbout ks_ex o.sid o.mid) (ex_stages stall flush comment j vs os)
unfolding ex_stages
ex_stages-Has stall flush comment j [] os i o e e' = absurd (none-some e)
ex_stages-Has stall flush comment j (v ∷ vs) [] i o e e' = absurd (none-some e')
ex_stages-Has stall flush comment j (v ∷ vs) (p ∷ os) zero o e e' =
    Has-left _ _ (ex_stages stall flush comment (suc j) vs os) (
      subst
        (λ t.
          Has (IsAbout ks_ex t.sid t.mid)
            (dump_stage ks_ex v stall flush p.sid p.mid (if j == 0 then comment else [])))
        (some_eq e')
        (dump_stage-Has ks_ex v stall flush p.sid p.mid (if j == 0 then comment else [])
          (some_eq e)))
ex_stages-Has stall flush comment j (v ∷ vs) (p ∷ os) (suc i) o e e' =
    Has-right _ _ (ex_stages stall flush comment (suc j) vs os)
      (ex_stages-Has stall flush comment (suc j) vs os i o e e')
