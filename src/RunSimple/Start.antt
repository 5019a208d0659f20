-- ===== src/RunSimple/Start.antt =====
-- RSD starts with the program in its memory.
use rsd_mp.Common.{
  ℕ, ◌+◌, ◌*◌, ◌<◌, ◌≤◌, [], ◌++◌, some, map, ◌≡◌, refl, ◌∙◌, arith, length, get_elem?, concat,
  append-nil, subst,
}
use rsd_mp.Common.Text.{Chars, codes}
use rsd_mp.Common.Memory.{Memory}
use rsd_mp.ProgramLoader.{send_program}
use rsd_mp.ProgramLoader.Word.{EndsNumber}
use rsd_mp.ProgramLoader.Line.{line_value}
use rsd_mp.ProgramLoader.Transfer.{IsSent, send_program-IsSent}
use rsd_mp.RunSimple.{Board, start}
use rsd_mp.RunSimple.Image.{program_lines, programinit}
use rsd_mp.RunSimple.Image.Laws.{program_lines-IsLine, length-map-program_lines}

module _ (garbage behind : Chars) (mem : Memory) (g : length garbage ≡ 8)
    (ends : EndsNumber behind) where
  program-IsSent :
      IsSent
        (map codes program_lines)
        65536
        mem
        (send_program garbage behind 65536 131072 programinit mem)
  unfolding programinit
  program-IsSent =
      subst
        (λ t.
          IsSent (map codes program_lines) 65536 mem
            (send_program garbage behind 65536 131072 t mem))
        (append-nil (concat (map codes program_lines)))
        (subst
          (λ (n : ℕ). IsSent (map codes program_lines) 65536 mem (
            send_program garbage behind 65536 (32 * n) (concat (map codes program_lines) ++ [])
              mem))
          length-map-program_lines
          (send_program-IsSent (map codes program_lines) garbage behind [] 65536 mem
            program_lines-IsLine g ends))

-- If no hexadecimal digit stands behind the array `val` and the cache flush makes memory as it was
-- written visible to RSD, then `start` returns with RSD released from reset, and RSD sees every word
-- of the 4096 program lines in its place and 0 in the rest of the first 65536 words.
pub start-program :
    (garbage behind : Chars) (flush : Memory → Memory) (b : Board)
    → length garbage ≡ 8
    → EndsNumber behind
    → ((m : Memory) (a : ℕ) → flush m a ≡ m a)
    → (b' : Board) × (start garbage behind flush b ≡ some b')
      × (b'.done ≡ 1)
      × ((n i : ℕ) (l : Chars)
          → get_elem? (map codes program_lines) n ≡ some l
          → i < 4
          → b'.seen (4 * n + i) ≡ line_value l i)
      × ((a : ℕ) → 16384 ≤ a → a < 65536 → b'.seen a ≡ 0)
unfolding start
start-program garbage behind flush b g ends visible =
    let t = program-IsSent garbage behind b.mem g ends in
    (
      record { done = 1; mem = t.final.mem; seen = flush t.final.mem },
      rw t.returns,
      refl,
      λ n i l at lt. visible t.final.mem (4 * n + i) ∙ t.words n i l at lt,
      λ a ge lt. visible t.final.mem a ∙ t.cleared a (omega (arith, length-map-program_lines)) lt,
    )
