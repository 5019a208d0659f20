-- ===== src/Examples/Main.antt =====
-- The theorems on the main program of the test bench at concrete inputs.
use rsd_mp.Common.{
  ◌+◌, ◌*◌, ◌%◌, ◌^◌, ◌<◌, List, [], ◌∷◌, ◌++◌, map, true, false, none, some, ◌≡◌, refl, arith, ◌↔◌,
  replicate, length-replicate, All-replicate,
}
use rsd_mp.Common.Text.{Chars, codes, strtoul16}
use rsd_mp.Common.Fields.{fields}
use rsd_mp.Common.Int.{pos}
use rsd_mp.Common.Memory.{Memory}
use rsd_mp.Dumper.Serial.{open_serial, new_serial}
use rsd_mp.Dumper.Kanata.{KanataDumper, new_dumper, open_dumper}
use rsd_mp.Dumper.RegisterCsv.{new_csv_dumper, dump_csv}
use rsd_mp.Dumper.RegisterCsv.Laws.{strtoul16-dump_csv}
use rsd_mp.TestBench.Arguments.{
  Parameters, Parsed, defaults, parse_arguments, match_parameter, is_value,
}
use rsd_mp.TestBench.Arguments.Laws.{IsValue, argument, arguments, parse_arguments-arguments}
use rsd_mp.TestBench.Arguments.Match.{match_parameter-argument_iff}
use rsd_mp.TestBench.HexFile.{fill_dummy, load_hex_file}
use rsd_mp.TestBench.HexFile.Laws.{IsLoaded, load_hex_file-IsLoaded}
use rsd_mp.TestBench.Registers.{Core}
use rsd_mp.TestBench.Simulation as Simulation
use rsd_mp.TestBench.Simulation.{simulate, initial}
use rsd_mp.TestBench.Simulation.Observed.Laws.{IsRefined, simulate-IsRefined}
use rsd_mp.TestBench.Simulation.Observed.Files.{IsLoggedStep, simulate-IsLoggedStep}
use rsd_mp.TestBench.Main.{
  World, Report, returned, main, options, initial_kanata, initial_serial, initial_csv,
  initial_trace, commit_num,
}
use rsd_mp.TestBench.Main.Laws.{IsRun, main-IsRun}
use rsd_mp.TestBench.Main.Saved.{IsSaved, IsCore, IsInList, main-IsSaved}
use rsd_mp.Examples.Registers.{registers}
use rsd_mp.Examples.Loaders.{two_lines, two_lines-IsLine}
use rsd_mp.Examples.Bench.{zeros, committing, values, values-IsWord, two_cycles, working, held}

strtoul16-dump_csv_example :
    (line : Chars) × (dump_csv 0x1000 values (record { file = some []; cycles = 7 })
      ≡ some (record { file = some ([] ++ line ∷ []); cycles = 7 }))
    × (map (strtoul16 32) (fields b',' line) ≡ 0x1000 ∷ values)
strtoul16-dump_csv_example =
    strtoul16-dump_csv 0x1000 7 values [] (omega arith) values-IsWord (length-replicate 64 0xcafe)

abbrev chosen : Parameters
chosen = record {
  max_test_cycles = pos 7;
  enable_pc_goal = false;
  show_serial_out = true;
  test_code = codes "Verification/TestCode/C/FP";
  reg_csv_file = codes "reg.csv";
  rsd_log_file = codes "RSD.log";
  wave_log_file = codes "simx.vcd";
}

parse_arguments-arguments_example :
    parse_arguments (arguments 2 chosen) (record { parameters = defaults; messages = [] })
    ≡ some (record { parameters = record chosen { max_test_cycles = pos 2 }; messages = [] })
unfolding is_value
parse_arguments-arguments_example =
    parse_arguments-arguments 2 chosen defaults [] (omega arith) refl refl refl refl

match_parameter-argument_iff_example :
    (match_parameter (codes "A=B=C") ≡ some (codes "A", codes "B=C")) ↔ (
      (codes "A=B=C" ≡ argument (codes "A") (codes "B=C"))
      × IsValue (codes "A")
      × IsValue (codes "B=C"))
match_parameter-argument_iff_example =
    match_parameter-argument_iff (codes "A=B=C") (codes "A") (codes "B=C")

abbrev beginning : Simulation.Bench
beginning = initial registers (new_serial true) new_dumper new_csv_dumper working (some (0 ∷ []))

simulate-IsRefined_example :
    IsRefined two_cycles
      (replicate 6 working)
      beginning
      (simulate two_cycles (replicate 6 working) beginning)
simulate-IsRefined_example = simulate-IsRefined two_cycles (replicate 6 working) beginning

opened : (k : KanataDumper) × (open_dumper true new_dumper ≡ some k)
unfolding open_dumper
opened = (_, refl)

simulate-IsLoggedStep_example : IsLoggedStep two_cycles registers (replicate 6 working) (
    simulate two_cycles
      (replicate 6 working)
      (initial registers (open_serial true (new_serial true)) opened.0 new_csv_dumper working none))
simulate-IsLoggedStep_example =
    simulate-IsLoggedStep two_cycles (replicate 6 working) registers true opened.0 new_csv_dumper
      working none opened.1

-- A core with registers of 32 bits, of which the last cycle commits one operation.
abbrev narrow : Core
narrow = record committing {
  phy_reg = λ i. (100 + i) % 2 ^ 32;
  phy_fp_reg = λ i. (200 + i) % 2 ^ 32;
}

abbrev world : (Memory → List Simulation.Outputs) → World
world rounds = record {
  code = λ name. some two_lines;
  opens = λ name. true;
  memory_words = 64;
  memory = zeros;
  pc_goal = 0x80001004;
  cleared = registers;
  first = λ mem. record working { core = narrow };
  rounds = rounds;
  quotient = λ a b. codes "0.5";
}

main-IsRun_example :
    IsRun 2 (main (world (λ mem. held ++ replicate 6 working)) (arguments 2 chosen))
unfolding is_value
main-IsRun_example =
    main-IsRun (world (λ mem. held ++ replicate 6 working)) 2 chosen (omega arith) (omega arith)
      refl refl refl refl
      (λ mem. (
        held,
        replicate 6 working,
        refl,
        omega (arith, length-replicate 6 working),
        All-replicate (λ (o : Simulation.Outputs). o.pos_reset_out ≡ false) 6 working refl,
      ))

-- The core finishes at once.
abbrev finishing : World
finishing = world (λ mem. record working { got_finish = true } ∷ [])

abbrev parsed : Parsed
parsed = record { parameters = defaults; messages = [] }

abbrev filled : Memory
filled = fill_dummy 64 0 zeros

lines-IsLoaded : IsLoaded two_lines 0 filled (load_hex_file 64 (some two_lines) 0 true filled)
lines-IsLoaded = load_hex_file-IsLoaded 64 0 two_lines true filled two_lines-IsLine (omega arith)

abbrev over : Simulation.Bench
over =
    initial registers (initial_serial finishing defaults) new_dumper
      (initial_csv finishing defaults) (record working { core = narrow }) (initial_trace defaults)

parsed_nothing : parse_arguments [] parsed ≡ some parsed
unfolding parse_arguments
parsed_nothing = refl

no_kanata : initial_kanata finishing defaults ≡ some new_dumper
unfolding initial_kanata
no_kanata = refl

finishes :
    (mem : Memory)
    → simulate (options finishing defaults) (finishing.rounds mem) over ≡ Simulation.finished over
unfolding simulate
finishes mem = refl

over-IsInList : IsInList over
unfolding initial commit_num
over-IsInList = omega arith

over-IsCore : IsCore over.seen.core
unfolding initial
over-IsCore = (λ a. omega arith, λ a. omega arith)

over_pc : over.last_committed_pc < 2 ^ 32
unfolding initial
over_pc = omega arith

main-IsSaved_example :
    (r : Report) × (main finishing [] ≡ returned r) × (r.bench ≡ over) × IsSaved over r.reg_out
main-IsSaved_example =
    main-IsSaved finishing [] parsed new_dumper lines-IsLoaded.out (0 + 4 * 2) over parsed_nothing
      no_kanata lines-IsLoaded.returns (finishes lines-IsLoaded.out) over-IsInList over-IsCore
      over_pc refl
