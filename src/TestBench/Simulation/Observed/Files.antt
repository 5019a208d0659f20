-- ===== src/TestBench/Simulation/Observed/Files.antt =====
-- TestMain.cpp, `main`: the logs that the loop leaves.
use rsd_mp.Common.{
  ℕ, suc, ◌+◌, ◌≤◌, List, [], ◌∷◌, map, Bool, true, false, Option, none, some, ◌≡◌, refl, sym, ap,
  ◌∙◌, arith, length, take, subst, Option-cases, some_eq, inl, inr, ◌>>=◌,
}
use rsd_mp.VerilatorHelper.Register.{DebugRegister}
use rsd_mp.VerilatorHelper.Get.{get_debug_register}
use rsd_mp.Dumper.Serial.{check_signal, check_signals, open_serial, new_serial}
use rsd_mp.Dumper.Serial.Laws.{sent, non_zero, check_signals_lem}
use rsd_mp.Dumper.Kanata.{KanataDumper, dump_all, open_dumper, new_dumper}
use rsd_mp.Dumper.Kanata.Log.{logged, run, cycles_from, dump_all-read_log}
use rsd_mp.Dumper.RegisterCsv.{RegisterFileCsvDumper}
use rsd_mp.TestBench.Simulation.{
  Options, Outputs, Bench, Step, running, finished, fault, initial, simulate, dump_kanata,
  dump_reg_csv,
}
use rsd_mp.TestBench.Simulation.Observed.{Log, log, record_cycle, record_all, observed}
use rsd_mp.TestBench.Simulation.Observed.Laws.{IsRefined, simulate-IsRefined}

abbrev pub signals : List Outputs → List (Bool × ℕ)
signals = map (λ o. (o.serial_we, o.serial_write_data))

-- The debug registers of the cycles, each read over the one before.
abbrev pub registers_of : DebugRegister → List Outputs → List DebugRegister
registers_of d [] = []
registers_of d (o ∷ os) =
    get_debug_register o.registers d ∷ registers_of (get_debug_register o.registers d) os

-- Those that the Kanata log gets: all or none.
abbrev pub dumped : Bool → DebugRegister → List Outputs → List DebugRegister
dumped true d os = registers_of d os
dumped false d os = []

-- What recorded cycles leave.
record IsKept (p : Options) (os : List Outputs) (l m : Log) : Type 0 where
  cycles : m.cycles ≡ l.cycles + length os
  serial : m.serial ≡ check_signals (signals os) l.serial
  kanata : dump_all (dumped p.enable_dump_kanata l.register os) l.kanata ≡ some m.kanata

-- A cycle.
record IsCycle (p : Options) (o : Outputs) (l m : Log) : Type 0 where
  cycles : m.cycles ≡ suc l.cycles
  register : m.register ≡ get_debug_register o.registers l.register
  serial : m.serial ≡ check_signal o.serial_we o.serial_write_data l.serial
  kanata :
      dump_kanata p.enable_dump_kanata (get_debug_register o.registers l.register) l.kanata
      ≡ some m.kanata

IsCycleIf : Options → Outputs → Log → Option Log → Type 0
IsCycleIf p o l none = Unit
IsCycleIf p o l (some m) = IsCycle p o l m

record_cycle-IsCycle : (p : Options) (o : Outputs) (l : Log) → IsCycleIf p o l (record_cycle p o l)
unfolding record_cycle IsCycleIf
record_cycle-IsCycle p o l =
    let r = get_debug_register o.registers l.register in
    elim (Option-cases (dump_kanata p.enable_dump_kanata r l.kanata)) [
      | inl e ↦ rw e tt
      | inr (k, e) ↦ elim (Option-cases (dump_reg_csv p.enable_dump_reg_csv o l.csv)) [
        | inl e' ↦ rw (e, e') tt
        | inr (d, e') ↦
            rw (e, e') (record { cycles = refl; register = refl; serial = refl; kanata = e })
      ]
    ]

dumped-cons :
    (b : Bool) (o : Outputs) (os : List Outputs) (l m n : Log)
    → dump_kanata b (get_debug_register o.registers l.register) l.kanata ≡ some m.kanata
    → dump_all (dumped b (get_debug_register o.registers l.register) os) m.kanata ≡ some n.kanata
    → dump_all (dumped b l.register (o ∷ os)) l.kanata ≡ some n.kanata
unfolding dump_kanata dump_all
dumped-cons true o os l m n e rest = rw (e, dump_all) rest
dumped-cons false o os l m n e rest = e ∙ rest

cons-IsKept :
    (p : Options) (o : Outputs) (os : List Outputs) (l m n : Log)
    → IsCycle p o l m
    → IsKept p os m n
    → IsKept p (o ∷ os) l n
unfolding check_signals dump_all
cons-IsKept p o os l m n c k = record {
  cycles = k.cycles ∙ ap (λ t. t + length os) c.cycles ∙ omega arith;
  serial = k.serial ∙ ap (check_signals (signals os)) c.serial;
  kanata =
      dumped-cons p.enable_dump_kanata o os l m n c.kanata (
        ap (λ r. dump_all (dumped p.enable_dump_kanata r os) m.kanata) (sym c.register) ∙ k.kanata);
}

none-some : {m : Log} → none ≡ some m → ⊥
none-some e = cc

record_all-cons :
    (p : Options) (o : Outputs) (os : List Outputs) (l m : Log)
    → record_all p (o ∷ os) l ≡ some m
    → (l' : Log) × (record_cycle p o l ≡ some l') × (record_all p os l' ≡ some m)
unfolding record_all
record_all-cons p o os l m h = elim (Option-cases (record_cycle p o l)) [
  | inl e ↦ absurd (stops e h)
  | inr (l', e) ↦ (l', e, sym (ap (λ t. t >>= record_all p os) e) ∙ h)
]
  where
    stops : record_cycle p o l ≡ none → (record_cycle p o l >>= record_all p os) ≡ some m → ⊥
    stops e h = none-some (sym (ap (λ t. t >>= record_all p os) e) ∙ h)

record_all-IsKept :
    (p : Options) (os : List Outputs) (l m : Log) → record_all p os l ≡ some m → IsKept p os l m
unfolding check_signals dump_all record_all
record_all-IsKept p [] l m h =
    let e : l ≡ m = some_eq h in
    record {
      cycles = sym (ap (λ t. t.cycles) e) ∙ omega arith;
      serial = sym (ap (λ t. t.serial) e);
      kanata = nothing p.enable_dump_kanata ∙ ap (λ t. some (t.kanata)) e;
    }
  where
    nothing : (b : Bool) → dump_all (dumped b l.register []) l.kanata ≡ some l.kanata
    nothing true = unfold dump_all in refl
    nothing false = unfold dump_all in refl
record_all-IsKept p (o ∷ os) l m h =
    let (l', e, rest) = record_all-cons p o os l m h in
    cons-IsKept p o os l l' m (first e) (record_all-IsKept p os l' m rest)
  where
    first : {l' : Log} → record_cycle p o l ≡ some l' → IsCycle p o l l'
    first e = unfold IsCycleIf in subst (IsCycleIf p o l) e (record_cycle-IsCycle p o l)

-- The logs of a run, with its cycles: `cycle` counts them; the serial file has the bytes that they
-- send, in order and without the bytes 0; and a reader of the Kanata log finds the cycles, numbered
-- from 0, each with the stages of its own debug registers, or no cycle if the log is off.
pub record IsLogged (p : Options) (cleared : DebugRegister) (os : List Outputs) (s : Bench)
    : Type 0 where
  pub cycles : s.cycles ≡ length os
  pub serial : s.serial_dumper.file ≡ some (non_zero (sent (signals os)))
  pub kanata :
      logged (some s.kanata_dumper) ≡ some (cycles_from 0 (dumped p.enable_dump_kanata cleared os))

-- For a state that the loop leaves or goes on from, of the first rounds that it has taken.
abbrev pub IsLoggedStep : Options → DebugRegister → List Outputs → Step → Type 0
IsLoggedStep p cleared os (running s) = IsLogged p cleared (observed false false os) s
IsLoggedStep p cleared os (finished s) =
    (n : ℕ) × (n ≤ length os) × IsLogged p cleared (observed false false (take n os)) s
IsLoggedStep p cleared os fault = Unit

kept-IsLogged :
    (p : Options) (cleared : DebugRegister) (os : List Outputs) (out : Bool) (k : KanataDumper)
    (csv : RegisterFileCsvDumper) (start : Outputs) (trace : Option (List ℕ)) (s : Bench)
    → open_dumper true new_dumper ≡ some k
    → record_all p os (log (initial cleared (open_serial true (new_serial out)) k csv start trace))
      ≡ some (log s)
    → IsLogged p cleared os s
unfolding initial
kept-IsLogged p cleared os out k csv start trace s opened h =
    let kept = record_all-IsKept p os _ (log s) h in
    record {
      cycles = kept.cycles ∙ omega arith;
      serial = ap (λ d. d.file) kept.serial ∙ ap (λ d. d.file) (check_signals_lem (signals os) out);
      kanata =
          ap logged (sym kept.kanata)
          ∙ ap logged (ran (dumped p.enable_dump_kanata cleared os))
          ∙ dump_all-read_log (dumped p.enable_dump_kanata cleared os);
    }
  where
    ran : (rs : List DebugRegister) → dump_all rs k ≡ run rs
    ran rs = sym (ap (λ o. elim o [ none ↦ none | some k ↦ dump_all rs k ]) opened)

-- Of a run with a serial file and a Kanata dumper that could be opened, whatever the core does: in
-- every state that the loop leaves or goes on from, the counter of cycles, the serial file and the
-- Kanata log are those of the cycles among the rounds that the loop has taken; if the Kanata log is
-- off, its file has no cycle.
pub simulate-IsLoggedStep :
    (p : Options) (os : List Outputs) (cleared : DebugRegister) (out : Bool) (k : KanataDumper)
    (csv : RegisterFileCsvDumper) (start : Outputs) (trace : Option (List ℕ))
    → open_dumper true new_dumper ≡ some k
    → IsLoggedStep p cleared os
        (simulate p os (initial cleared (open_serial true (new_serial out)) k csv start trace))
simulate-IsLoggedStep p os cleared out k csv start trace opened =
    refined (simulate p os s) (simulate-IsRefined p os s)
  where
    s : Bench
    s = initial cleared (open_serial true (new_serial out)) k csv start trace

    refined : (r : Step) → IsRefined p os s r → IsLoggedStep p cleared os r
    refined (running s') h =
        kept-IsLogged p cleared (observed false false os) out k csv start trace s' opened
          (unfold initial in h)
    refined (finished s') (n, le, h) = (
      n,
      le,
      kept-IsLogged p cleared (observed false false (take n os)) out k csv start trace s' opened
          (unfold initial in h),
    )
    refined fault h = tt
