-- ===== src/TestBench/Simulation/Traced.antt =====
-- TestMain.cpp, `main`: the trace that the loop of the simulation dumps.
use rsd_mp.Common.{
  ℕ, zero, suc, ◌+◌, ◌%◌, ◌^◌, ◌≤◌, List, [], ◌∷◌, ◌++◌, not, ◌&&◌, Option, none, some, leb, ◌≡◌,
  refl, sym, ap, ap₂, ◌∙◌, arith, length, append_assoc, append-nil, Bool-cases, inl, inr,
}
use rsd_mp.Common.Int.{int_max}
use rsd_mp.VerilatorHelper.Register.{DebugRegister}
use rsd_mp.Dumper.Kanata.{KanataDumper}
use rsd_mp.Dumper.RegisterCsv.{RegisterFileCsvDumper}
use rsd_mp.TestBench.Simulation.{
  Options, Outputs, Bench, Step, running, finished, fault, micro_ops, first_ops, count_ops,
  after_csv, after_dump, clocked, advance, clock_edge, half_cycle, simulate, reaches_goal, at_goal,
  dump_trace, evaluated,
}

-- The times of `n` rounds from time `t` on.
abbrev pub times : ℕ → ℕ → List ℕ
times zero t = []
times (suc n) t = t ∷ times n ((t + 8) % 2 ^ 32)

abbrev pub extended : List ℕ → Option (List ℕ) → Option (List ℕ)
extended ts none = none
extended ts (some before) = some (before ++ ts)

-- A round that has the trace `t` after its dump at time `m`.
abbrev IsDumped : Option (List ℕ) → ℕ → Step → Type 0
IsDumped t m (running s) = (s.trace ≡ t) × (s.main_time ≡ (m + 8) % 2 ^ 32)
IsDumped t m (finished s) = s.trace ≡ t
IsDumped t m fault = Unit

advance-IsDumped :
    (p : Options) (o : Outputs) (s : Bench) → IsDumped s.trace s.main_time (advance p o s)
unfolding advance
advance-IsDumped p o s = elim (Bool-cases (leb p.max_test_cycles s.cycles)) [
  | inl e ↦ rw e refl
  | inr e ↦ rw e (refl, refl)
]

edge-IsDumped :
    (p : Options) (o : Outputs) (s : Bench) → IsDumped s.trace s.main_time (clock_edge p o (some s))
unfolding clock_edge at_goal
edge-IsDumped p o s = elim (Bool-cases (reaches_goal p o)) [
  | inl e ↦ rw e refl
  | inr e ↦ rw e (advance-IsDumped p o s)
]

after_csv-IsDumped :
    (p : Options) (o : Outputs) (r : DebugRegister) (s : Bench) (k : KanataDumper)
    (d : Option RegisterFileCsvDumper)
    → IsDumped s.trace s.main_time (clock_edge p o (after_csv p o r s k d))
unfolding after_csv clock_edge count_ops
after_csv-IsDumped p o r s k none = tt
after_csv-IsDumped p o r s k (some d) =
    elim (Bool-cases (
      leb (s.committed_micro_ops + micro_ops r.cm_reg) int_max
      && leb (s.committed_ops + first_ops r.cm_reg) int_max)) [
        | inl e ↦ rw e (edge-IsDumped p o _)
        | inr e ↦ rw e tt
      ]

after_dump-IsDumped :
    (p : Options) (o : Outputs) (r : DebugRegister) (s : Bench) (k : Option KanataDumper)
    → IsDumped s.trace s.main_time (clock_edge p o (after_dump p o r s k))
unfolding after_dump clock_edge
after_dump-IsDumped p o r s none = tt
after_dump-IsDumped p o r s (some k) = after_csv-IsDumped p o r s k _

half_cycle-IsDumped :
    (p : Options) (o : Outputs) (s : Bench)
    → IsDumped (dump_trace s.main_time s.trace) s.main_time (half_cycle p o s)
unfolding half_cycle clocked
half_cycle-IsDumped p o s = elim (Bool-cases (not s.clk_p && s.start)) [
  | inl e ↦ rw e (after_dump-IsDumped p o _ (evaluated o s) _)
  | inr e ↦ rw e (advance-IsDumped p o (evaluated o s))
]

extended-nil : (t : Option (List ℕ)) → t ≡ extended [] t
extended-nil none = refl
extended-nil (some ts) = ap some (sym (append-nil ts))

extended-cons :
    (m : ℕ) (ts : List ℕ) (t : Option (List ℕ)) → extended ts (dump_trace m t) ≡ extended (m ∷ ts) t
unfolding dump_trace
extended-cons m ts none = refl
extended-cons m ts (some before) = ap some (append_assoc before (m ∷ []) ts)

-- The trace has got the times of the rounds that the loop has taken from the state `s` on, or there
-- is none.
abbrev pub IsTraced : List Outputs → Bench → Step → Type 0
IsTraced os s (running s') = s'.trace ≡ extended (times (length os) s.main_time) s.trace
IsTraced os s (finished s') =
    (n : ℕ) × (n ≤ length os) × (s'.trace ≡ extended (times n s.main_time) s.trace)
IsTraced os s fault = Unit

-- After a round that leads from `s` to `s'`.
later :
    (s s' : Bench) (n : ℕ) (t : Option (List ℕ))
    → s'.trace ≡ dump_trace s.main_time s.trace
    → s'.main_time ≡ (s.main_time + 8) % 2 ^ 32
    → t ≡ extended (times n s'.main_time) s'.trace
    → t ≡ extended (times (suc n) s.main_time) s.trace
later s s' n t e m h =
    h
    ∙ ap₂ (λ x y. extended (times n x) y) m e
    ∙ extended-cons s.main_time (times n ((s.main_time + 8) % 2 ^ 32)) s.trace

later-IsTraced :
    (o : Outputs) (os : List Outputs) (s s' : Bench) (r : Step)
    → s'.trace ≡ dump_trace s.main_time s.trace
    → s'.main_time ≡ (s.main_time + 8) % 2 ^ 32
    → IsTraced os s' r
    → IsTraced (o ∷ os) s r
later-IsTraced o os s s' (running t) e m h = later s s' (length os) t.trace e m h
later-IsTraced o os s s' (finished t) e m (n, le, h) =
    (suc n, omega (arith, le), later s s' n t.trace e m h)
later-IsTraced o os s s' fault e m h = tt

dumped-IsTraced :
    (p : Options) (o : Outputs) (os : List Outputs) (s : Bench)
    (resume : (s' : Bench) → IsTraced os s' (simulate p os s')) (r : Step)
    → IsDumped (dump_trace s.main_time s.trace) s.main_time r
    → IsTraced
        (o ∷ os)
        s
        (elim r [ running s' ↦ simulate p os s' | finished s' ↦ finished s' | fault ↦ fault ])
dumped-IsTraced p o os s resume (running s') (e, m) =
    later-IsTraced o os s s' (simulate p os s') e m (resume s')
dumped-IsTraced p o os s resume (finished s') e =
    (1, omega arith, e ∙ extended-nil _ ∙ extended-cons s.main_time [] s.trace)
dumped-IsTraced p o os s resume fault h = tt

pub simulate-IsTraced :
    (p : Options) (os : List Outputs) (s : Bench) → IsTraced os s (simulate p os s)
unfolding simulate
simulate-IsTraced p [] s = extended-nil s.trace
simulate-IsTraced p (o ∷ os) s = elim (Bool-cases o.got_finish) [
  | inl e ↦ rw e (0, omega arith, extended-nil s.trace)
  | inr e ↦ rw e (
      dumped-IsTraced p o os s (simulate-IsTraced p os) (half_cycle p o s)
        (half_cycle-IsDumped p o s))
]
