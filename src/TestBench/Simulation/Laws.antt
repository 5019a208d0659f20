-- ===== src/TestBench/Simulation/Laws.antt =====
-- TestMain.cpp, `main`: the counters of the simulation, and its end.
use rsd_mp.Common.{
  ℕ, suc, ◌+◌, ◌%◌, ◌<◌, ◌≤◌, List, [], ◌∷◌, Bool, true, false, not, ◌&&◌, Option, none, some, ◌==◌,
  leb, if◌then◌else◌, ◌≡◌, refl, arith, Bool-cases, ap, inl, inr, ◌⊎◌, ◌^◌,
}
use rsd_mp.Common.Int.{int_max}
use rsd_mp.VerilatorHelper.Register.{DebugRegister}
use rsd_mp.VerilatorHelper.Stage.{CommitStageDebugRegister}
use rsd_mp.Dumper.Serial.{SerialDumper}
use rsd_mp.Dumper.Kanata.{KanataDumper}
use rsd_mp.Dumper.RegisterCsv.{RegisterFileCsvDumper}
use rsd_mp.TestBench.Simulation.{
  Options, Outputs, Bench, Step, running, finished, fault, initial, micro_ops, first_ops, count_ops,
  after_dump, clocked, advance, clock_edge, half_cycle, simulate, after_csv, reaches_goal,
  evaluated,
}
use rsd_mp.TestBench.Simulation.Traced.{IsTraced, simulate-IsTraced}

-- The counters of a state that the simulation reaches.
abbrev pub IsBench : Options → Bench → Type 0
IsBench p s =
    (s.kanata_cycle ≡ s.cycles)
    × (s.cycles ≤ p.max_test_cycles)
    × (s.committed_ops ≤ s.committed_micro_ops)
    × ((s.main_time < 128) ⊎ (s.neg_reset_in ≡ true))
    × (s.main_time % 8 ≡ 0)

-- Of a state that the loop leaves or goes on from.
abbrev pub IsStep : Options → Step → Type 0
IsStep p (running s) = IsBench p s × (s.cycles < p.max_test_cycles)
IsStep p (finished s) = IsBench p s
IsStep p fault = Unit

first_ops-le : (xs : List CommitStageDebugRegister) → first_ops xs ≤ micro_ops xs
unfolding first_ops micro_ops
first_ops-le [] = omega arith
first_ops-le (x ∷ xs) = ground (arith, first_ops-le xs)

reset_released :
    (t : ℕ) (b : Bool)
    → t % 8 ≡ 0
    → (t < 128) ⊎ (b ≡ true)
    → ((t + 8) % 2 ^ 32 < 128) ⊎ ((if (t + 8) % 2 ^ 32 == 128 then true else b) ≡ true)
reset_released t b m h = ground arith

advance-IsStep : (p : Options) (o : Outputs) (s : Bench) → IsBench p s → IsStep p (advance p o s)
unfolding advance
advance-IsStep p o s (k, c, m, r, t) = elim (Bool-cases (leb p.max_test_cycles s.cycles)) [
  | inl e ↦ rw e (k, c, m, reset_released s.main_time s.neg_reset_in t r, step_mod s.main_time t)
  | inr e ↦ rw e (
    (k, c, m, reset_released s.main_time s.neg_reset_in t r, step_mod s.main_time t),
    below p.max_test_cycles s.cycles e,
  )
]
  where
    step_mod : (t : ℕ) → t % 8 ≡ 0 → (t + 8) % 2 ^ 32 % 8 ≡ 0
    step_mod t h = omega arith

    below : (a b : ℕ) → leb a b ≡ false → b < a
    below a b h = ground arith

-- A rising edge, from a state with cycles left.
edge-IsStep :
    (p : Options) (o : Outputs) (s : Bench) → IsBench p s → IsStep p (clock_edge p o (some s))
unfolding clock_edge
edge-IsStep p o s h = elim (Bool-cases (reaches_goal p o)) [
  | inl e ↦ rw e h
  | inr e ↦ rw e (advance-IsStep p o s h)
]

count_ops-IsStep :
    (p : Options) (o : Outputs) (r : DebugRegister) (s : Bench) (k : KanataDumper)
    (d : RegisterFileCsvDumper)
    → IsBench p s
    → s.cycles < p.max_test_cycles
    → IsStep p (clock_edge p o (count_ops p o r s k d))
unfolding count_ops
count_ops-IsStep p o r s k d (kc, c, m, n, t) lt =
    let le = first_ops-le r.cm_reg in
    elim (Bool-cases (
      leb (s.committed_micro_ops + micro_ops r.cm_reg) int_max
      && leb (s.committed_ops + first_ops r.cm_reg) int_max)) [
        | inl e ↦
            rw e (edge-IsStep p o _ (ap suc kc, omega (arith, lt), omega (arith, m, le), n, t))
        | inr e ↦ rw e (unfold clock_edge in tt)
      ]

after_csv-IsStep :
    (p : Options) (o : Outputs) (r : DebugRegister) (s : Bench) (k : KanataDumper)
    (d : Option RegisterFileCsvDumper)
    → IsBench p s
    → s.cycles < p.max_test_cycles
    → IsStep p (clock_edge p o (after_csv p o r s k d))
unfolding after_csv clock_edge
after_csv-IsStep p o r s k none h lt = tt
after_csv-IsStep p o r s k (some d) h lt = count_ops-IsStep p o r s k d h lt

after_dump-IsStep :
    (p : Options) (o : Outputs) (r : DebugRegister) (s : Bench) (k : Option KanataDumper)
    → IsBench p s
    → s.cycles < p.max_test_cycles
    → IsStep p (clock_edge p o (after_dump p o r s k))
unfolding after_dump clock_edge
after_dump-IsStep p o r s none h lt = tt
after_dump-IsStep p o r s (some k) h lt = after_csv-IsStep p o r s k _ h lt

half_cycle-IsStep :
    (p : Options) (o : Outputs) (s : Bench)
    → IsBench p s
    → s.cycles < p.max_test_cycles
    → IsStep p (half_cycle p o s)
unfolding half_cycle clocked
half_cycle-IsStep p o s h lt = elim (Bool-cases (not s.clk_p && s.start)) [
  | inl e ↦ rw e (after_dump-IsStep p o _ (evaluated o s) _ h lt)
  | inr e ↦ rw e (advance-IsStep p o (evaluated o s) h)
]

simulate_from :
    (p : Options) (os : List Outputs) (s : Bench)
    → IsBench p s
    → s.cycles < p.max_test_cycles
    → IsStep p (simulate p os s)
unfolding simulate
simulate_from p [] s h lt = (h, lt)
simulate_from p (o ∷ os) s h lt = elim (Bool-cases o.got_finish) [
  | inl e ↦ rw e h
  | inr e ↦ rw e (after p os (simulate_from p os) (half_cycle p o s) (half_cycle-IsStep p o s h lt))
]
  where
    after :
        (p : Options) (os : List Outputs)
        (k : (s' : Bench)
          → IsBench p s'
          → s'.cycles < p.max_test_cycles
          → IsStep p (simulate p os s'))
        (r : Step)
        → IsStep p r
        → IsStep p
            (elim r [ running s' ↦ simulate p os s' | finished s' ↦ finished s' | fault ↦ fault ])
    after p os k (running s') (h, lt) = k s' h lt
    after p os k (finished s') h = h
    after p os k fault h = tt

-- In every state that the simulation reaches from its start with a maximum of cycles above 0, the two
-- cycle counters agree and are at most the maximum, and below it if the simulation goes on; at most as
-- many instructions as micro-operations are counted; the reset is released if the time is 128 or later;
-- and the trace, if it is written, has got the times of the rounds that the loop has taken, in steps of
-- 8 from 16 on and modulo `2 ^ 32`, after those that it had before.
pub simulate-IsStep :
    (p : Options) (os : List Outputs) (cleared : DebugRegister) (serial : SerialDumper)
    (kanata : KanataDumper) (csv : RegisterFileCsvDumper) (first : Outputs)
    (trace : Option (List ℕ))
    → 0 < p.max_test_cycles
    → IsStep p (simulate p os (initial cleared serial kanata csv first trace))
      × IsTraced os
          (initial cleared serial kanata csv first trace)
          (simulate p os (initial cleared serial kanata csv first trace))
unfolding initial
simulate-IsStep p os cleared serial kanata csv first trace lt = (
  simulate_from p os (initial cleared serial kanata csv first trace)
      (refl, omega arith, omega arith, inl (omega arith), refl) lt,
  simulate-IsTraced p os (initial cleared serial kanata csv first trace),
)
