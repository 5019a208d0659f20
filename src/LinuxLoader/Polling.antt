-- ===== src/LinuxLoader/Polling.antt =====
-- loader.c: the loop that shows the output of RSD. It never ends.
pub mod Laws
use rsd_mp.Common.{ℕ, ◌+◌, ◌%◌, ◌^◌, List, [], ◌∷◌, ◌++◌, ◌==◌, if◌then◌else◌}

-- What a round reads from the registers of RSD; `empty_again` is the second read of the register
-- that says whether the output is empty.
pub record Sample : Type 0 where
  pub empty : ℕ
  pub item : ℕ
  pub last_committed_pc : ℕ
  pub committed_insn_count : ℕ
  pub empty_again : ℕ
  pub program_wordsize : ℕ

pub data Output : Type 0 where
  char : ℕ → Output
  report : ℕ → ℕ → ℕ → ℕ → Output

pub record Poll : Type 0 where
  pub t : ℕ
  pub out : List Output

abbrev pub report_period : ℕ
report_period = 10000000

unfoldable pub show_item : Sample → List Output → List Output
show_item x out = if x.empty == 1 then out else out ++ char (x.item % 2 ^ 8) ∷ []

unfoldable pub poll_step : Sample → Poll → Poll
unfolding show_item
poll_step x p =
    let out = show_item x p.out in
    if p.t == report_period
    then record {
      t = 0;
      out =
          out
          ++ report x.last_committed_pc x.committed_insn_count x.empty_again x.program_wordsize
            ∷ [];
    }
    else record { t = p.t + 1; out = out }

unfoldable pub poll_loop : List Sample → Poll → Poll
unfolding poll_step
poll_loop [] p = p
poll_loop (x ∷ xs) p = poll_loop xs (poll_step x p)
