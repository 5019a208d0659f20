-- ===== src/ProgramLoader/Layout.antt =====
-- Where the words of a program text go: line `n` of `code.hex` has 32 digits and fills the AXI words
-- `4 * n` to `4 * n + 3`, the last word of the line first.
use rsd_mp.Common.{ℕ, zero, suc, ◌+◌, ◌*◌, ◌<◌, ◌≤◌, List, [], ◌∷◌, ◌++◌, some}
use rsd_mp.Common.{◌≡◌, refl, ◌∙◌, arith, All, length, ap, ◌⊎◌, concat, some_eq}
use rsd_mp.Common.{get_elem?, append_assoc, sym, subst}
use rsd_mp.Common.Text.{Chars, IsHex}
use rsd_mp.Common.Memory.{Memory, store}
use rsd_mp.Common.Memory.Laws.{store_self, store_ne}
use rsd_mp.ProgramLoader.{Cursor, transfer_loop}
use rsd_mp.ProgramLoader.Word.{
  Word, chars, at_word, EndsNumber, word_value, sent_value-eq, transfer_word,
}
use rsd_mp.ProgramLoader.Line.{IsLine, line_value, IsLine-Parts}

-- The four words of a line, stored in the order of the loop.
pub place_line : Chars → ℕ → Memory → Memory
place_line l o mem =
    store
      (store (store (store mem (o + 3) (line_value l 3)) (o + 2) (line_value l 2)) (o + 1)
        (line_value l 1))
      (o + 0) (line_value l 0)

-- All lines, from AXI word `o` on.
pub place : List Chars → ℕ → Memory → Memory
place [] o mem = mem
place (l ∷ ls) o mem = place ls (o + 4) (place_line l o mem)

at_start : (o i : ℕ) → o + 4 * 0 + i ≡ o + i
at_start o i = omega arith

one_more : (o n i : ℕ) → o + 4 * suc n + i ≡ o + 4 + 4 * n + i
one_more o n i = omega arith

thirty_two : (j : ℕ) → j + 8 + 8 + 8 + 8 ≡ j + 32
thirty_two j = omega arith

transfer_end :
    (behind : Chars) (charsize j : ℕ) (rest : Chars) (s : Cursor)
    → j ≡ charsize
    → transfer_loop behind charsize j rest s ≡ some s
unfolding transfer_loop
transfer_end behind charsize j [] s e = ground arith
transfer_end behind charsize j (c ∷ rest) s e = ground arith

module _ (behind : Chars) (ends : EndsNumber behind) (charsize : ℕ) where
  send_parts :
      (j : ℕ) (a b c d v : Word) (rest : Chars) (o : ℕ) (mem : Memory)
      → All IsHex (chars a)
      → All IsHex (chars b)
      → All IsHex (chars c)
      → All IsHex (chars d)
      → j + 32 ≤ charsize
      → transfer_loop behind charsize j
          (chars a ++ (chars b ++ (chars c ++ (chars d ++ rest))))
          (at_word v 3 o mem)
        ≡ transfer_loop behind charsize (j + 32) rest (
            at_word d 3 (o + 4) (
              store
                (store
                  (store (store mem (o + 3) (word_value a)) (o + 2) (word_value b))
                  (o + 1)
                  (word_value c))
                (o + 0)
                (word_value d)))
  send_parts j a b c d v rest o mem ha hb hc hd le = rw (
    transfer_word behind charsize j a v _ 3 o mem (omega arith),
    transfer_word behind charsize (j + 8) b a _ 2 o _ (omega arith),
    transfer_word behind charsize (j + 8 + 8) c b _ 1 o _ (omega arith),
    transfer_word behind charsize (j + 8 + 8 + 8) d c rest 0 o _ (omega arith),
    sent_value-eq a behind ha ends,
    sent_value-eq b behind hb ends,
    sent_value-eq c behind hc ends,
    sent_value-eq d behind hd ends,
    thirty_two j,
  )

  send_line :
      (j : ℕ) (l : Chars) (v : Word) (rest : Chars) (o : ℕ) (mem : Memory)
      → IsLine l
      → j + 32 ≤ charsize
      → (w : Word) × (transfer_loop behind charsize j (l ++ rest) (at_word v 3 o mem)
          ≡ transfer_loop behind charsize (j + 32) rest (at_word w 3 (o + 4) (place_line l o mem)))
  unfolding place_line line_value word_value
  send_line j l v rest o mem h le =
      let p = IsLine-Parts l h in
      (
        p.d,
        subst
            (λ t.
              transfer_loop behind charsize j (t ++ rest) (at_word v 3 o mem)
              ≡ transfer_loop behind charsize (j + 32) rest
                  (at_word p.d 3 (o + 4) (place_line t o mem)))
            (sym p.spells)
            (send_parts j p.a p.b p.c p.d v rest o mem p.a_hex p.b_hex p.c_hex p.d_hex le),
      )

  -- With as many characters as the lines have, the loop returns, and the memory has every line.
  pub send_lines :
      (ls : List Chars) (j : ℕ) (v : Word) (rest : Chars) (o : ℕ) (mem : Memory)
      → All IsLine ls
      → j + 32 * length ls ≡ charsize
      → (s : Cursor) × (transfer_loop behind charsize j (concat ls ++ rest) (at_word v 3 o mem)
          ≡ some s)
        × (s.mem ≡ place ls o mem)
  unfolding place
  send_lines [] j v rest o mem h e =
      (at_word v 3 o mem, transfer_end behind charsize j rest _ (omega arith), refl)
  send_lines (l ∷ ls) j v rest o mem (hl, h) e =
      let (w, step) = send_line j l v (concat ls ++ rest) o mem hl (omega arith) in
      let (s, returns, placed) =
        send_lines ls (j + 32) w rest (o + 4) (place_line l o mem) h (omega arith) in
      (
        s,
        ap (λ t. transfer_loop behind charsize j t (at_word v 3 o mem))
              (append_assoc l (concat ls) rest)
            ∙ step
            ∙ returns,
        placed,
      )

-- Line `n` stands from AXI word `o + 4 * n` on, and nothing else changes.
line_value_placed :
    (l : Chars) (o : ℕ) (mem : Memory) (i : ℕ) → i < 4 → place_line l o mem (o + i) ≡ line_value l i
unfolding place_line
line_value_placed l o mem zero lt = store_self _ (o + 0) _
line_value_placed l o mem (suc zero) lt =
    store_ne _ (o + 0) _ (o + 1) (omega arith) ∙ store_self _ (o + 1) _
line_value_placed l o mem (suc (suc zero)) lt =
    store_ne _ (o + 0) _ (o + 2) (omega arith)
    ∙ store_ne _ (o + 1) _ (o + 2) (omega arith)
    ∙ store_self _ (o + 2) _
line_value_placed l o mem (suc (suc (suc zero))) lt =
    store_ne _ (o + 0) _ (o + 3) (omega arith)
    ∙ store_ne _ (o + 1) _ (o + 3) (omega arith)
    ∙ store_ne _ (o + 2) _ (o + 3) (omega arith)
    ∙ store_self _ (o + 3) _
line_value_placed l o mem (suc (suc (suc (suc i)))) lt = absurd (omega arith)

place_line_outside :
    (l : Chars) (o : ℕ) (mem : Memory) (a : ℕ)
    → (a < o) ⊎ (o + 4 ≤ a)
    → place_line l o mem a ≡ mem a
unfolding place_line
place_line_outside l o mem a h =
    store_ne _ (o + 0) _ a (omega arith)
    ∙ store_ne _ (o + 1) _ a (omega arith)
    ∙ store_ne _ (o + 2) _ a (omega arith)
    ∙ store_ne _ (o + 3) _ a (omega arith)

pub place_outside :
    (ls : List Chars) (o : ℕ) (mem : Memory) (a : ℕ)
    → (a < o) ⊎ (o + 4 * length ls ≤ a)
    → place ls o mem a ≡ mem a
unfolding place
place_outside [] o mem a h = refl
place_outside (l ∷ ls) o mem a h =
    place_outside ls (o + 4) (place_line l o mem) a (omega arith)
    ∙ place_line_outside l o mem a (omega arith)

pub place_inside :
    (ls : List Chars) (o : ℕ) (mem : Memory) (n i : ℕ) (l : Chars)
    → get_elem? ls n ≡ some l
    → i < 4
    → place ls o mem (o + 4 * n + i) ≡ line_value l i
unfolding place
place_inside [] o mem n i l e lt = cc
place_inside (l ∷ ls) o mem zero i k e lt =
    ap (place ls (o + 4) (place_line l o mem)) (at_start o i)
    ∙ place_outside ls (o + 4) (place_line l o mem) (o + i) (omega arith)
    ∙ line_value_placed l o mem i lt
    ∙ ap (λ t. line_value t i) (some_eq e)
place_inside (l ∷ ls) o mem (suc n) i k e lt =
    ap (place ls (o + 4) (place_line l o mem)) (one_more o n i)
    ∙ place_inside ls (o + 4) (place_line l o mem) n i k e lt
