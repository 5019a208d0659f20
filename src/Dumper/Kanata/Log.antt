-- ===== src/Dumper/Kanata/Log.antt =====
-- Dumper.h, class `KanataDumper`: the log of a run can be read back, cycle by cycle.
use rsd_mp.Common.{
  ℕ, suc, ◌+◌, List, [], ◌∷◌, ◌++◌, true, Option, none, some, ◌≡◌, refl, sym, ap, ◌∙◌, All, length,
  arith, append_assoc, append-nil,
}
use rsd_mp.VerilatorHelper.Register.{DebugRegister}
use rsd_mp.Dumper.Kanata.Base.{LogLine, header, cycle, stage, code}
use rsd_mp.Dumper.Kanata.Operations.{IsOperation}
use rsd_mp.Dumper.Kanata.Laws.{stage_lines-IsOperation}
use rsd_mp.Dumper.Kanata.{
  KanataDumper, write, proceed_cycle, dump_cycle, dump_all, stage_lines, open_dumper, new_dumper,
}

-- A reader of the log: the lines before the first cycle, and the cycles with their lines.
abbrev pub read_log : List LogLine → List LogLine × List (ℕ × List LogLine)
read_log [] = ([], [])
read_log (header ∷ ls) = read_log ls
read_log (cycle n ∷ ls) = ([], (n, (read_log ls).0) ∷ (read_log ls).1)
read_log (stage id v st c s m str ∷ ls) =
    (stage id v st c s m str ∷ (read_log ls).0, (read_log ls).1)
read_log (code s m pc insn ∷ ls) = (code s m pc insn ∷ (read_log ls).0, (read_log ls).1)

-- What is to be read: the cycles in order from `n`, each with the lines of its registers.
abbrev pub cycles_from : ℕ → List DebugRegister → List (ℕ × List LogLine)
cycles_from n [] = []
cycles_from n (r ∷ rs) = (n, stage_lines r) ∷ cycles_from (suc n) rs

lines_from : ℕ → List DebugRegister → List LogLine
lines_from n [] = []
lines_from n (r ∷ rs) = cycle n ∷ (stage_lines r ++ lines_from (suc n) rs)

read_log-append :
    (r : DebugRegister) (xs ys : List LogLine)
    → All (IsOperation r) xs
    → read_log (xs ++ ys) ≡ (xs ++ (read_log ys).0, (read_log ys).1)
read_log-append r [] ys h = refl
read_log-append r (header ∷ xs) ys h = absurd h.0
read_log-append r (cycle n ∷ xs) ys h = absurd h.0
read_log-append r (stage id v st c s m str ∷ xs) ys h =
    ap (λ p. (stage id v st c s m str ∷ p.0, p.1)) (read_log-append r xs ys h.1)
read_log-append r (code s m pc insn ∷ xs) ys h =
    ap (λ p. (code s m pc insn ∷ p.0, p.1)) (read_log-append r xs ys h.1)

read_log-lines_from :
    (n : ℕ) (rs : List DebugRegister) → read_log (lines_from n rs) ≡ ([], cycles_from n rs)
unfolding lines_from
read_log-lines_from n [] = refl
read_log-lines_from n (r ∷ rs) =
    let e = read_log-append r (stage_lines r) (lines_from (suc n) rs) (stage_lines-IsOperation r) in
    let ih = read_log-lines_from (suc n) rs in
    let e' : read_log (stage_lines r ++ lines_from (suc n) rs)
        ≡ (stage_lines r ++ [], cycles_from (suc n) rs) =
      e ∙ ap (λ p. (stage_lines r ++ p.0, p.1)) ih in
    let e'' : read_log (stage_lines r ++ lines_from (suc n) rs)
        ≡ (stage_lines r, cycles_from (suc n) rs) =
      e' ∙ ap (λ t. (t, cycles_from (suc n) rs)) (append-nil (stage_lines r)) in
    ap (λ p. ([], (n, p.0) ∷ p.1)) e''

after : List LogLine → ℕ → ℕ → KanataDumper
after log n id = record { file = some log; cycles = n; retire_id = id }

dump_all-after :
    (rs : List DebugRegister) (log : List LogLine) (n id : ℕ)
    → dump_all rs (after log n id) ≡ some (after (log ++ lines_from n rs) (n + length rs) id)
unfolding dump_all dump_cycle proceed_cycle write after lines_from
dump_all-after [] log n id =
    let e : n ≡ n + 0 = omega arith in
    ap (λ l. some (after l n id)) (sym (append-nil log)) ∙ ap (λ m. some (after (log ++ []) m id)) e
dump_all-after (r ∷ rs) log n id =
    let ih = dump_all-after rs ((log ++ cycle n ∷ []) ++ stage_lines r) (suc n) id in
    let e : suc n + length rs ≡ n + suc (length rs) = omega arith in
    let a : ((log ++ cycle n ∷ []) ++ stage_lines r) ++ lines_from (suc n) rs
        ≡ log ++ (cycle n ∷ (stage_lines r ++ lines_from (suc n) rs)) =
      append_assoc (log ++ cycle n ∷ []) (stage_lines r) (lines_from (suc n) rs)
      ∙ append_assoc log (cycle n ∷ []) (stage_lines r ++ lines_from (suc n) rs) in
    ih
    ∙ ap (λ l. some (after l (suc n + length rs) id)) a
    ∙ ap (λ m. some (after (log ++ (cycle n ∷ (stage_lines r ++ lines_from (suc n) rs))) m id)) e

-- Of the file of a dumper, what the reader finds.
abbrev pub logged : Option KanataDumper → Option (List (ℕ × List LogLine))
logged none = none
logged (some k) = elim k.file [ none ↦ none | some log ↦ some ((read_log log).1) ]

abbrev pub run : List DebugRegister → Option KanataDumper
run rs = elim (open_dumper true new_dumper) [ none ↦ none | some k ↦ dump_all rs k ]

-- After the file is opened, `DumpCycle` on any sequence of debug registers writes a log from which
-- a reader gets back the cycles, numbered from 0 without a gap, each with the lines of the stages
-- of its own registers.
pub dump_all-read_log : (rs : List DebugRegister) → logged (run rs) ≡ some (cycles_from 0 rs)
unfolding open_dumper after
dump_all-read_log rs =
    ap logged (dump_all-after rs (header ∷ []) 0 1)
    ∙ ap (λ p. some (p.1)) (read_log-lines_from 0 rs)
