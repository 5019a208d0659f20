-- ===== src/TestBench/Simulation/Observed/Laws.antt =====
-- TestMain.cpp, `main`: the loop refines its abstract view.
use rsd_mp.Common.{
  ℕ, suc, ◌+◌, ◌≤◌, List, [], ◌∷◌, Bool, true, false, not, ◌&&◌, Option, some, leb, if◌then◌else◌,
  ◌≡◌, refl, sym, ap, ap₂, subst, ◌∙◌, arith, length, take, Bool-cases, Option-cases, some_eq, inl,
  inr, ◌>>=◌,
}
use rsd_mp.Common.Int.{int_max}
use rsd_mp.VerilatorHelper.Get.{get_debug_register}
use rsd_mp.Dumper.Kanata.{KanataDumper}
use rsd_mp.Dumper.RegisterCsv.{RegisterFileCsvDumper}
use rsd_mp.TestBench.Simulation.{
  Options, Outputs, Bench, Step, running, finished, fault, micro_ops, first_ops, count_ops,
  after_csv, after_dump, clocked, advance, clock_edge, half_cycle, simulate, dump_kanata,
  dump_reg_csv, reaches_goal, at_goal, evaluated,
}
use rsd_mp.TestBench.Simulation.Observed.{Log, log, record_cycle, record_all, observed}

-- What a round records: nothing, or a cycle.
abbrev recorded : Options → Bool → Outputs → Log → Option Log
recorded p b o l = if b then record_cycle p o l else some l

-- A round that starts from `l`, with `b` if it is a cycle.
abbrev IsRecorded : Options → Bool → Bool → Outputs → Log → Step → Type 0
IsRecorded p b clk o l (running s) =
    (recorded p b o l ≡ some (log s)) × (s.clk_p ≡ clk) × (s.start ≡ not o.pos_reset_out)
IsRecorded p b clk o l (finished s) = recorded p b o l ≡ some (log s)
IsRecorded p b clk o l fault = Unit

advance-IsRecorded :
    (p : Options) (b : Bool) (o : Outputs) (l : Log) (s : Bench)
    → recorded p b o l ≡ some (log s)
    → IsRecorded p b s.clk_p o l (advance p o s)
unfolding advance
advance-IsRecorded p b o l s h = elim (Bool-cases (leb p.max_test_cycles s.cycles)) [
  | inl e ↦ rw e h
  | inr e ↦ rw e (h, refl, refl)
]

edge-IsRecorded :
    (p : Options) (b : Bool) (o : Outputs) (l : Log) (s : Bench)
    → recorded p b o l ≡ some (log s)
    → IsRecorded p b s.clk_p o l (clock_edge p o (some s))
unfolding clock_edge at_goal
edge-IsRecorded p b o l s h = elim (Bool-cases (reaches_goal p o)) [
  | inl e ↦ rw e h
  | inr e ↦ rw e (advance-IsRecorded p b o l s h)
]

count_ops-IsRecorded :
    (p : Options) (o : Outputs) (s : Bench) (k : KanataDumper) (d : RegisterFileCsvDumper)
    → dump_kanata p.enable_dump_kanata
        (get_debug_register o.registers s.debug_register)
        s.kanata_dumper
      ≡ some k
    → dump_reg_csv p.enable_dump_reg_csv o s.csv_dumper ≡ some d
    → IsRecorded p true s.clk_p o
        (log s)
        (clock_edge p o (count_ops p o (get_debug_register o.registers s.debug_register) s k d))
unfolding count_ops record_cycle
count_ops-IsRecorded p o s k d ek ed =
    let r = get_debug_register o.registers s.debug_register in
    elim (Bool-cases (
      leb (s.committed_micro_ops + micro_ops r.cm_reg) int_max
      && leb (s.committed_ops + first_ops r.cm_reg) int_max)) [
        | inl e ↦ rw e (edge-IsRecorded p true o (log s) _ (rw (ek, ed) refl))
        | inr e ↦ rw e (unfold clock_edge in tt)
      ]

clocked-IsRecorded :
    (p : Options) (o : Outputs) (s : Bench)
    → IsRecorded p true s.clk_p o (log s) (clock_edge p o (clocked p o s))
unfolding clocked after_dump after_csv
clocked-IsRecorded p o s =
    let r = get_debug_register o.registers s.debug_register in
    elim (Option-cases (dump_kanata p.enable_dump_kanata r s.kanata_dumper)) [
      | inl e ↦ rw e (unfold clock_edge in tt)
      | inr (k, e) ↦ elim (Option-cases (dump_reg_csv p.enable_dump_reg_csv o s.csv_dumper)) [
        | inl e' ↦ rw (e, after_dump) (rw e' (unfold clock_edge in tt))
        | inr (d, e') ↦ rw (e, after_dump) (rw e' (count_ops-IsRecorded p o s k d e e'))
      ]
    ]

half_cycle-IsRecorded :
    (p : Options) (o : Outputs) (s : Bench)
    → IsRecorded p (not s.clk_p && s.start) (not s.clk_p) o (log s) (half_cycle p o s)
unfolding half_cycle
half_cycle-IsRecorded p o s =
    let s' = evaluated o s in
    elim (Bool-cases (not s.clk_p && s.start)) [
      | inl e ↦ rw e (clocked-IsRecorded p o s')
      | inr e ↦ rw e (advance-IsRecorded p false o (log s) s' refl)
    ]

record_all-recorded :
    (p : Options) (b : Bool) (o : Outputs) (rest : List Outputs) (l m : Log)
    → recorded p b o l ≡ some m
    → record_all p (if b then o ∷ rest else rest) l ≡ record_all p rest m
unfolding record_all
record_all-recorded p true o rest l m h = ap (λ t. t >>= record_all p rest) h
record_all-recorded p false o rest l m h = ap (record_all p rest) (some_eq h)

record_all-observed :
    (p : Options) (clk start : Bool) (o : Outputs) (os : List Outputs) (l m : Log)
    → recorded p (not clk && start) o l ≡ some m
    → record_all p (observed clk start (o ∷ os)) l
      ≡ record_all p (observed (not clk) (not o.pos_reset_out) os) m
unfolding observed
record_all-observed p clk start o os l m h =
    record_all-recorded p (not clk && start) o (observed (not clk) (not o.pos_reset_out) os) l m h

-- A step of the abstract view for each cycle among the rounds that the loop has taken.
abbrev pub IsRefined : Options → List Outputs → Bench → Step → Type 0
IsRefined p os s (running s') = record_all p (observed s.clk_p s.start os) (log s) ≡ some (log s')
IsRefined p os s (finished s') =
    (n : ℕ) × (n ≤ length os)
    × (record_all p (observed s.clk_p s.start (take n os)) (log s) ≡ some (log s'))
IsRefined p os s fault = Unit

later-IsRefined :
    (p : Options) (o : Outputs) (os : List Outputs) (s s' : Bench) (r : Step)
    → recorded p (not s.clk_p && s.start) o (log s) ≡ some (log s')
    → s'.clk_p ≡ not s.clk_p
    → s'.start ≡ not o.pos_reset_out
    → IsRefined p os s' r
    → IsRefined p (o ∷ os) s r
later-IsRefined p o os s s' (running t) h c st ih =
    record_all-observed p s.clk_p s.start o os (log s) (log s') h
    ∙ ap₂ (λ x y. record_all p (observed x y os) (log s')) (sym c) (sym st)
    ∙ ih
later-IsRefined p o os s s' (finished t) h c st (n, le, ih) = (
  suc n,
  omega (arith, le),
  record_all-observed p s.clk_p s.start o (take n os) (log s) (log s') h
      ∙ ap₂ (λ x y. record_all p (observed x y (take n os)) (log s')) (sym c) (sym st)
      ∙ ih,
)
later-IsRefined p o os s s' fault h c st ih = tt

-- The loop after a round.
abbrev next : Options → List Outputs → Step → Step
next p os r = elim r [ running s' ↦ simulate p os s' | finished s' ↦ finished s' | fault ↦ fault ]

simulate_finish :
    (p : Options) (o : Outputs) (os : List Outputs) (s : Bench)
    → o.got_finish ≡ true
    → simulate p (o ∷ os) s ≡ finished s
unfolding simulate
simulate_finish p o os s e = rw e refl

simulate_next :
    (p : Options) (o : Outputs) (os : List Outputs) (s : Bench)
    → o.got_finish ≡ false
    → simulate p (o ∷ os) s ≡ next p os (half_cycle p o s)
unfolding simulate
simulate_next p o os s e =
    ap (λ (b : Bool). elim b [ true ↦ finished s | false ↦ next p os (half_cycle p o s) ]) e

next-IsRefined :
    (p : Options) (o : Outputs) (os : List Outputs) (s : Bench) (r : Step)
    → ((s' : Bench) → IsRefined p os s' (simulate p os s'))
    → IsRecorded p (not s.clk_p && s.start) (not s.clk_p) o (log s) r
    → IsRefined p (o ∷ os) s (next p os r)
next-IsRefined p o os s (running s') resume (h, c, st) =
    later-IsRefined p o os s s' (simulate p os s') h c st (resume s')
next-IsRefined p o os s (finished s') resume h =
    (1, omega arith, record_all-observed p s.clk_p s.start o [] (log s) (log s') h ∙ nothing)
  where
    nothing :
        record_all p (observed (not s.clk_p) (not o.pos_reset_out) []) (log s') ≡ some (log s')
    nothing = unfold observed record_all in refl
next-IsRefined p o os s fault resume h = tt

-- Whatever the core does, the loop refines the abstract view: in every state that it leaves or goes
-- on from, the counters of cycles and of operations, the debug register and the three dumpers are
-- those that the cycles among its rounds give, one after the other; a round without a rising edge, or
-- after a round with the core in reset, changes none of them.
pub simulate-IsRefined :
    (p : Options) (os : List Outputs) (s : Bench) → IsRefined p os s (simulate p os s)
simulate-IsRefined p [] s = unfold simulate observed record_all in refl
simulate-IsRefined p (o ∷ os) s = elim (Bool-cases o.got_finish) [
  | inl e ↦
      subst (IsRefined p (o ∷ os) s) (sym (simulate_finish p o os s e)) (0, omega arith, start_over)
  | inr e ↦ subst (IsRefined p (o ∷ os) s) (sym (simulate_next p o os s e)) (
      next-IsRefined p o os s (half_cycle p o s) (simulate-IsRefined p os)
        (half_cycle-IsRecorded p o s))
]
  where
    start_over : record_all p (observed s.clk_p s.start []) (log s) ≡ some (log s)
    start_over = unfold observed record_all in refl
