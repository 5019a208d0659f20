-- ===== src/ProgramLoader/Transfer.antt =====
-- What the main memory holds after the transfer.
use rsd_mp.Common.{
  ℕ, zero, suc, ◌+◌, ◌-◌, ◌*◌, ◌%◌, ◌^◌, ◌<◌, ◌≤◌, List, [], ◌∷◌, ◌++◌, Option, some,
}
use rsd_mp.Common.{
  ◌≡◌, refl, ◌≢◌, ◌∙◌, arith, All, length, ap, ◌⊎◌, concat, get_elem?, sym, inr, inl, Option-cases,
}
use rsd_mp.Common.Text.{Chars, scan_hex, hex_value?, IsHex, saturate}
use rsd_mp.Common.Strtoul.{scan_hex-some, scan_hex-none}
use rsd_mp.Common.Memory.{Memory}
use rsd_mp.Common.Memory.Laws.{store_self, store_ne}
use native.Mathlib.Nat.{le_refl}
use native.Mathlib.Decide.{ℕ_discrete}
use rsd_mp.ProgramLoader.{Cursor, clear_loop, send_program, transfer_loop}
use rsd_mp.ProgramLoader.Word.{
  Word, chars, to_word, at_word, transfer_word, EndsNumber, word_value, sent_value, sent_value_raw,
}
use rsd_mp.ProgramLoader.Line.{IsLine, line_value}
use rsd_mp.ProgramLoader.Layout.{place, place_inside, place_outside, send_lines}

clear_loop_rest :
    (left t : ℕ) (mem : Memory) (a : ℕ) → (a < t) ⊎ (t + left ≤ a) → clear_loop left t mem a ≡ mem a
unfolding clear_loop
clear_loop_rest zero t mem a h = refl
clear_loop_rest (suc left) t mem a h =
    clear_loop_rest left (t + 1) _ a (omega arith) ∙ store_ne mem t 0 a (omega arith)

clear_loop_zero :
    (left t : ℕ) (mem : Memory) (a : ℕ) → t ≤ a → a < t + left → clear_loop left t mem a ≡ 0
unfolding clear_loop
clear_loop_zero zero t mem a le lt = absurd (omega arith)
clear_loop_zero (suc left) t mem a le lt = elim (ℕ_discrete a t) [
  | yes e ↦ rw e (clear_loop_rest left (t + 1) _ t (omega arith) ∙ store_self mem t 0)
  | no ne ↦ clear_loop_zero left (t + 1) _ a (omega arith) (omega arith)
]

-- What a transfer leaves behind: the words of the lines, zeros up to word `clear`, and the old
-- memory from there on.
pub record IsSent (ls : List Chars) (clear : ℕ) (mem : Memory) (result : Option Cursor)
    : Type 0 where
  pub final : Cursor
  pub returns : result ≡ some final
  pub words :
      (n i : ℕ) (l : Chars)
      → get_elem? ls n ≡ some l
      → i < 4
      → final.mem (4 * n + i) ≡ line_value l i
  pub cleared : (a : ℕ) → 4 * length ls ≤ a → a < clear → final.mem a ≡ 0
  pub kept : (a : ℕ) → 4 * length ls ≤ a → clear ≤ a → final.mem a ≡ mem a

-- Whatever `val` holds at first, a text of lines of 32 hexadecimal digits, followed by anything, is
-- transferred to its last line with no read behind the text: AXI word `4 * n + i` gets the number
-- that the digits `(3 - i) * 8` to `(3 - i) * 8 + 7` of line `n` spell, the rest of the cleared area
-- is 0, and the memory above keeps its content. The condition `EndsNumber` is that no hexadecimal
-- digit stands in memory behind the array `val`.
pub send_program-IsSent :
    (ls : List Chars) (garbage behind rest : Chars) (clear : ℕ) (mem : Memory)
    → All IsLine ls
    → length garbage ≡ 8
    → EndsNumber behind
    → IsSent ls clear mem
        (send_program garbage behind clear (32 * length ls) (concat ls ++ rest) mem)
unfolding send_program
send_program-IsSent ls garbage behind rest clear mem h g ends =
    let (v, e) = to_word garbage g in
    let (s, returns, placed) =
      send_lines behind ends (32 * length ls) ls 0 v rest 0 (clear_loop clear 0 mem) h
        (omega arith) in
    record {
      final = s;
      returns = rw e returns;
      words = λ n i l at lt.
          rw placed (ap (place ls 0 _) (from_zero n i) ∙ place_inside ls 0 _ n i l at lt);
      cleared = λ a ge lt. rw placed (
          place_outside ls 0 _ a (inr (omega arith))
          ∙ clear_loop_zero clear 0 mem a (omega arith) (omega arith));
      kept = λ a ge le. rw placed (
          place_outside ls 0 _ a (inr (omega arith))
          ∙ clear_loop_rest clear 0 mem a (inr (omega arith)));
    }
  where
    from_zero : (n i : ℕ) → 4 * n + i ≡ 0 + 4 * n + i
    from_zero n i = omega arith

le-scan_hex : (cs : Chars) (acc : ℕ) → acc ≤ scan_hex cs acc
le-scan_hex [] acc = unfold scan_hex in le_refl acc
le-scan_hex (c ∷ cs) acc = elim (Option-cases (hex_value? c)) [
  | inl e ↦ rw (scan_hex-none c cs acc e) (le_refl acc)
  | inr (d, e) ↦ rw (scan_hex-some c d cs acc e) (omega (arith, le-scan_hex cs (acc * 16 + d)))
]

sent_value-ne :
    (w : Word) (c d : ℕ) (behind : Chars)
    → All IsHex (chars w)
    → hex_value? c ≡ some d
    → 0 < word_value w
    → word_value w < 2 ^ 32 - 1
    → sent_value w (c ∷ behind) ≢ word_value w
sent_value-ne w c d behind h e pos lt same = absurd (
    larger (scan_hex behind (word_value w * 16 + d)) (le-scan_hex behind _) (
      sym (
        sent_value_raw w (c ∷ behind) h
        ∙ ap (λ (t : ℕ). saturate 32 t % 2 ^ 32) (scan_hex-some c d behind (word_value w) e))
      ∙ same))
  where
    larger : (t : ℕ) → word_value w * 16 + d ≤ t → saturate 32 t % 2 ^ 32 ≡ word_value w → ⊥
    larger t le eq = unfold saturate in ground arith

-- `val` is not ended by a null character. If a hexadecimal digit stands in memory behind the array,
-- the transfer loop stores for the eight digits of its last word, at AXI word `offset + k`, another
-- number than they spell, unless this is 0 or the largest.
pub transfer_loop_digit_behind :
    (w v : Word) (c d : ℕ) (behind rest : Chars) (j k offset : ℕ) (mem : Memory)
    → All IsHex (chars w)
    → hex_value? c ≡ some d
    → 0 < word_value w
    → word_value w < 2 ^ 32 - 1
    → (s : Cursor) × (transfer_loop
          (c ∷ behind)
          (j + 8)
          j
          (chars w ++ rest)
          (at_word v k offset mem)
        ≡ some s)
      × (s.mem (offset + k) ≢ word_value w)
transfer_loop_digit_behind w v c d behind rest j k offset mem h e pos lt = (
  _,
  transfer_word (c ∷ behind) (j + 8) j w v rest k offset mem (omega arith) ∙ ended rest _,
  λ same.
      sent_value-ne w c d behind h e pos lt
        (sym (store_self mem (offset + k) (sent_value w (c ∷ behind))) ∙ same),
)
  where
    ended : (rest : Chars) (s : Cursor) → transfer_loop (c ∷ behind) (j + 8) (j + 8) rest s ≡ some s
    ended [] s = unfold transfer_loop in ground arith
    ended (x ∷ xs) s = unfold transfer_loop in ground arith
