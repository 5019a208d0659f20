-- ===== src/TestBench/Simulation/End.antt =====
-- TestMain.cpp, `main`: the simulation ends after the given number of cycles.
use rsd_mp.Common.{
  ℕ, suc, ◌+◌, ◌-◌, ◌*◌, ◌<◌, ◌≤◌, List, [], ◌∷◌, ◌++◌, Bool, true, false, not, ◌&&◌, Option, none,
  some, leb, if◌then◌else◌, ◌≡◌, refl, arith, length, All, ap, Bool-cases, inl, inr,
}
use rsd_mp.Common.Int.{int_max}
use rsd_mp.VerilatorHelper.Register.{DebugRegister}
use rsd_mp.Dumper.Kanata.{KanataDumper}
use rsd_mp.Dumper.RegisterCsv.{RegisterFileCsvDumper}
use rsd_mp.TestBench.Simulation.{
  Options, Outputs, Bench, Step, running, finished, fault, micro_ops, first_ops, count_ops,
  after_dump, clocked, advance, clock_edge, half_cycle, simulate, after_csv, reaches_goal,
}

-- The rounds that are left when the core is out of reset.
abbrev left : Options → Bench → ℕ
left p s = 2 * (p.max_test_cycles - s.cycles) + (if s.clk_p then 1 else 0)

-- A round that goes on has at most `n` rounds left.
abbrev IsRound : Options → ℕ → Step → Type 0
IsRound p n (running s) = (s.start ≡ true) × (left p s ≤ n) × (s.cycles < p.max_test_cycles)
IsRound p n (finished s) = Unit
IsRound p n fault = Unit

abbrev pub IsRunning : Step → Type 0
IsRunning (running s) = Unit
IsRunning (finished s) = ⊥
IsRunning fault = ⊥

below : (a b : ℕ) → leb a b ≡ false → b < a
below a b h = ground arith

advance-IsRound :
    (p : Options) (o : Outputs) (s : Bench) (n : ℕ)
    → o.pos_reset_out ≡ false
    → left p s ≤ n
    → IsRound p n (advance p o s)
unfolding advance
advance-IsRound p o s n out le = elim (Bool-cases (leb p.max_test_cycles s.cycles)) [
  | inl e ↦ rw e tt
  | inr e ↦ rw e (ap not out, le, below p.max_test_cycles s.cycles e)
]

edge-IsRound :
    (p : Options) (o : Outputs) (s : Bench) (n : ℕ)
    → o.pos_reset_out ≡ false
    → left p s ≤ n
    → IsRound p n (clock_edge p o (some s))
unfolding clock_edge
edge-IsRound p o s n out le = elim (Bool-cases (reaches_goal p o)) [
  | inl e ↦ rw e tt
  | inr e ↦ rw e (advance-IsRound p o s n out le)
]

after_csv-IsRound :
    (p : Options) (o : Outputs) (r : DebugRegister) (s : Bench) (k : KanataDumper)
    (d : Option RegisterFileCsvDumper) (n : ℕ)
    → o.pos_reset_out ≡ false
    → 2 * (p.max_test_cycles - suc s.cycles) + (if s.clk_p then 1 else 0) ≤ n
    → IsRound p n (clock_edge p o (after_csv p o r s k d))
unfolding after_csv clock_edge count_ops
after_csv-IsRound p o r s k none n out le = tt
after_csv-IsRound p o r s k (some d) n out le =
    elim (Bool-cases (
      leb (s.committed_micro_ops + micro_ops r.cm_reg) int_max
      && leb (s.committed_ops + first_ops r.cm_reg) int_max)) [
        | inl e ↦ rw e (edge-IsRound p o _ n out le)
        | inr e ↦ rw e tt
      ]

after_dump-IsRound :
    (p : Options) (o : Outputs) (r : DebugRegister) (s : Bench) (k : Option KanataDumper) (n : ℕ)
    → o.pos_reset_out ≡ false
    → 2 * (p.max_test_cycles - suc s.cycles) + (if s.clk_p then 1 else 0) ≤ n
    → IsRound p n (clock_edge p o (after_dump p o r s k))
unfolding after_dump clock_edge
after_dump-IsRound p o r s none n out le = tt
after_dump-IsRound p o r s (some k) n out le = after_csv-IsRound p o r s k _ n out le

left_high :
    (p : Options) (s : Bench) → s.clk_p ≡ true → left p s ≡ 2 * (p.max_test_cycles - s.cycles) + 1
left_high p s e = rw e refl

left_low :
    (p : Options) (s : Bench) → s.clk_p ≡ false → left p s ≡ 2 * (p.max_test_cycles - s.cycles) + 0
left_low p s e = rw e refl

one_less : (a b n x : ℕ) → b < a → x ≡ 2 * (a - b) + 1 → x ≤ suc n → 2 * (a - b) + 0 ≤ n
one_less a b n x lt e le = omega arith

one_cycle_less : (a b n x : ℕ) → b < a → x ≡ 2 * (a - b) + 0 → x ≤ suc n → 2 * (a - suc b) + 1 ≤ n
one_cycle_less a b n x lt e le = omega arith

half_cycle-IsRound :
    (p : Options) (o : Outputs) (s : Bench) (n : ℕ)
    → o.pos_reset_out ≡ false
    → s.start ≡ true
    → s.cycles < p.max_test_cycles
    → left p s ≤ suc n
    → IsRound p n (half_cycle p o s)
unfolding half_cycle clocked
half_cycle-IsRound p o s n out st lt le = elim (Bool-cases s.clk_p) [
  | inl high ↦
      rw (high, st)
        (advance-IsRound p o _ n out
          (one_less p.max_test_cycles s.cycles n (left p s) lt (left_high p s high) le))
  | inr low ↦
      rw (low, st)
        (after_dump-IsRound p o _ _ _ n out
          (one_cycle_less p.max_test_cycles s.cycles n (left p s) lt (left_low p s low) le))
]

abbrev Released : List Outputs → Type 0
Released = All (λ o. o.pos_reset_out ≡ false)

some_left : (p : Options) (s : Bench) → s.cycles < p.max_test_cycles → 1 ≤ left p s
some_left p s lt = omega arith

-- The loop from a round on, where `resume` says what holds of the later rounds.
after_round :
    (p : Options) (os : List Outputs) (n : ℕ)
    (resume : (s : Bench)
      → s.start ≡ true
      → s.cycles < p.max_test_cycles
      → left p s ≤ n
      → (IsRunning (simulate p os s) → ⊥))
    (r : Step)
    → IsRound p n r
    → IsRunning
        (elim r [ running s' ↦ simulate p os s' | finished s' ↦ finished s' | fault ↦ fault ])
    → ⊥
after_round p os n resume (running s) (st, le, lt) r = resume s st lt le r
after_round p os n resume (finished s) h r = r
after_round p os n resume fault h r = r

simulate_stops :
    (p : Options) (os : List Outputs) (s : Bench)
    → Released os
    → s.start ≡ true
    → s.cycles < p.max_test_cycles
    → left p s ≤ length os
    → (IsRunning (simulate p os s) → ⊥)
unfolding simulate
simulate_stops p [] s h st lt le = λ r. absurd (omega (arith, some_left p s lt))
simulate_stops p (o ∷ os) s (out, h) st lt le = elim (Bool-cases o.got_finish) [
  | inl e ↦ rw e (λ r. r)
  | inr e ↦ rw e (
      after_round p os (length os) (λ s' st' lt' le'. simulate_stops p os s' h st' lt' le')
        (half_cycle p o s) (half_cycle-IsRound p o s (length os) out st lt le))
]

most_left : (a b n : ℕ) (c : Bool) → 2 * a + 1 ≤ n → 2 * (a - b) + (if c then 1 else 0) ≤ n
most_left a b n true le = omega arith
most_left a b n false le = omega arith

-- A round out of reset, whatever came before it.
any_cycle-IsRound :
    (p : Options) (o : Outputs) (s : Bench) (n : ℕ)
    → o.pos_reset_out ≡ false
    → 2 * p.max_test_cycles + 1 ≤ n
    → IsRound p n (half_cycle p o s)
unfolding half_cycle clocked
any_cycle-IsRound p o s n out le = elim (Bool-cases (not s.clk_p && s.start)) [
  | inl e ↦
      rw e (after_dump-IsRound p o _ _ _ n out (most_left p.max_test_cycles (suc s.cycles) n _ le))
  | inr e ↦ rw e (advance-IsRound p o _ n out (most_left p.max_test_cycles s.cycles n _ le))
]

simulate_awake :
    (p : Options) (os : List Outputs) (s : Bench)
    → Released os
    → 2 * p.max_test_cycles + 2 ≤ length os
    → ¬ IsRunning (simulate p os s)
unfolding simulate
simulate_awake p [] s h le = absurd (omega arith)
simulate_awake p (o ∷ os) s (out, h) le = elim (Bool-cases o.got_finish) [
  | inl e ↦ rw e (λ r. r)
  | inr e ↦ rw e (
      after_round p os (length os) (λ s' st' lt' le'. simulate_stops p os s' h st' lt' le')
        (half_cycle p o s) (any_cycle-IsRound p o s (length os) out (omega arith)))
]

-- A round whose outputs are arbitrary.
after_any :
    (p : Options) (os : List Outputs)
    → ((s : Bench) → ¬ IsRunning (simulate p os s))
    → (r : Step)
    → ¬ IsRunning
        (elim r [ running s' ↦ simulate p os s' | finished s' ↦ finished s' | fault ↦ fault ])
after_any p os ends (running s) = ends s
after_any p os ends (finished s) = λ r. r
after_any p os ends fault = λ r. r

-- From any state on, and after any number of rounds with any outputs, as those are in which the core is
-- held in reset: once the core has been out of reset for two rounds for each cycle of the maximum and
-- two more, the simulation is over, whatever else the core does. It has left the loop, or met undefined
-- behaviour.
pub simulate-ends :
    (p : Options) (before os : List Outputs) (s : Bench)
    → All (λ o. o.pos_reset_out ≡ false) os
    → 2 * p.max_test_cycles + 2 ≤ length os
    → ¬ IsRunning (simulate p (before ++ os) s)
unfolding simulate
simulate-ends p [] os s h le = simulate_awake p os s h le
simulate-ends p (o ∷ before) os s h le = elim (Bool-cases o.got_finish) [
  | inl e ↦ rw e (λ r. r)
  | inr e ↦
      rw e (after_any p (before ++ os) (λ s'. simulate-ends p before os s' h le) (half_cycle p o s))
]
