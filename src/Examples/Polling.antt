-- ===== src/Examples/Polling.antt =====
-- The theorems on the polling loop at concrete inputs.
use rsd_mp.Common.{◌≤◌, List, [], ◌∷◌, ◌≡◌, arith, length, take, replicate, length-replicate}
use rsd_mp.RunSimple.{Sample, Poll, running, stopped, poll_loop}
use rsd_mp.RunSimple.Polling.{
  at_start, all_rounds, rounds, shown, items, final, poll_loop-ends, poll_loop-runs,
  poll_loop-shown,
}
use rsd_mp.VerilatorHelper.Stage.{}
use rsd_mp.TestBench.Registers.Laws.{}

abbrev samples : List Sample
samples =
    record { empty = 0; item = 65; last_committed_pc = 4096; committed_insn_count = 7 }
    ∷ record { empty = 1; item = 66; last_committed_pc = 4100; committed_insn_count = 8 }
    ∷ []

poll_loop-runs_example :
    (p : Poll) × (poll_loop samples at_start ≡ running p) × (rounds p ≡ length samples)
poll_loop-runs_example = poll_loop-runs samples (omega arith)

abbrev one_sample : Sample
one_sample = record { empty = 0; item = 65; last_committed_pc = 4096; committed_insn_count = 7 }

enough_samples : all_rounds ≤ length (replicate all_rounds one_sample)
enough_samples = omega (arith, length-replicate all_rounds one_sample)

poll_loop-ends_example :
    (p : Poll) × (poll_loop (replicate all_rounds one_sample) at_start ≡ stopped p)
poll_loop-ends_example = poll_loop-ends (replicate all_rounds one_sample) enough_samples

poll_loop-shown_example :
    shown (final (poll_loop samples at_start)).out ≡ items (take all_rounds samples)
poll_loop-shown_example = poll_loop-shown samples
