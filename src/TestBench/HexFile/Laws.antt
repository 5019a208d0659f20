-- ===== src/TestBench/HexFile/Laws.antt =====
-- The test bench and the loaders of the boards give the core the same memory.
use rsd_mp.Common.{
  ℕ, zero, suc, ◌+◌, ◌-◌, ◌*◌, ◌/◌, ◌%◌, ◌^◌, ◌<◌, ◌≤◌, List, [], ◌∷◌, ◌++◌, Bool, true,
}
use rsd_mp.Common.{Option, some, length, take, drop, All, ◌≡◌, refl, sym, ap, ◌∙◌, arith, get_elem?}
use rsd_mp.Common.{
  length-take, length-drop, All-take, All-drop, concat, ◌⊎◌, inl, subst, get_elem?-some, some_eq,
  le_false,
}
use rsd_mp.Common.Text.{Chars, strtoul16, scan_hex, IsHex}
use rsd_mp.Common.Strtoul.{strtoul16_digits, saturate_fits, scan_hex-lt}
use rsd_mp.Common.Memory.{Memory, store}
use rsd_mp.Common.Memory.Laws.{store_self, store_ne}
use native.Mathlib.Decide.{ℕ_discrete}
use rsd_mp.ProgramLoader.{Cursor, send_program}
use rsd_mp.ProgramLoader.Word.{EndsNumber}
use rsd_mp.ProgramLoader.Line.{IsLine, line_value}
use rsd_mp.ProgramLoader.Transfer.{IsSent, send_program-IsSent}
use rsd_mp.TestBench.HexFile.{Load, loaded, substr, store_line, load_lines, load_hex_file}

substr_lem :
    (l : Chars) (i : ℕ)
    → length l ≡ 32
    → i < 4
    → substr l ((3 - i) * 8) ≡ some (take 8 (drop ((3 - i) * 8) l))
unfolding substr
substr_lem l i len lt = ground arith

word_read :
    (l : Chars) (i : ℕ)
    → IsLine l
    → i < 4
    → strtoul16 64 (take 8 (drop ((3 - i) * 8) l)) % 2 ^ 32 ≡ line_value l i
unfolding line_value
word_read l i (len, h) lt =
    ap (λ (t : ℕ). t % 2 ^ 32)
      (strtoul16_digits 64 u h' (omega (arith, n8))
        ∙ saturate_fits 64 (scan_hex u 0) (omega (arith, small)))
    ∙ omega (arith, small)
  where
    u : Chars
    u = take 8 (drop ((3 - i) * 8) l)

    n8 : length u ≡ 8
    n8 = length-take 8 (drop ((3 - i) * 8) l) (omega (arith, length-drop ((3 - i) * 8) l))

    h' : All IsHex u
    h' = All-take IsHex 8 _ (All-drop IsHex ((3 - i) * 8) l h)

    small : scan_hex u 0 < 2 ^ 32
    small = subst (λ (t : ℕ). scan_hex u 0 < 1 * 16 ^ t) n8 (scan_hex-lt u 0 h')

store_line_step :
    (left i : ℕ) (l : Chars) (word_addr : ℕ) (mem : Memory)
    → length l ≡ 32
    → i < 4
    → store_line (suc left) i l word_addr mem
      ≡ store_line left
          (i + 1)
          l
          word_addr
          (store mem (word_addr + i) (strtoul16 64 (take 8 (drop ((3 - i) * 8) l)) % 2 ^ 32))
unfolding store_line
store_line_step left i l word_addr mem len lt = rw (substr_lem l i len lt, store_line)

load_lines_step :
    (size : ℕ) (l : Chars) (ls : List Chars) (o : ℕ) (mem mem' : Memory)
    → o < size
    → store_line 4 0 l o mem ≡ some mem'
    → load_lines size (l ∷ ls) o mem ≡ load_lines size ls (o + 4) mem'
unfolding load_lines
load_lines_step size l ls o mem mem' lt e = rw (le_false size o lt, e, load_lines)

-- The inner loop on a line of 32 digits: the words from `i` on are stored, and nothing else changes.
record Stored (l : Chars) (i left word_addr : ℕ) (mem : Memory) (result : Option Memory)
    : Type 0 where
  out : Memory
  returns : result ≡ some out
  words : (k : ℕ) → i ≤ k → k < 4 → out (word_addr + k) ≡ line_value l k
  outside : (a : ℕ) → (a < word_addr + i) ⊎ (word_addr + 4 ≤ a) → out a ≡ mem a

store_line-Stored :
    (left i : ℕ) (l : Chars) (word_addr : ℕ) (mem : Memory)
    → IsLine l
    → i + left ≡ 4
    → Stored l i left word_addr mem (store_line left i l word_addr mem)
unfolding store_line
store_line-Stored zero i l word_addr mem h e = record {
  out = mem;
  returns = refl;
  words = λ k le lt. absurd (omega arith);
  outside = λ a o. refl;
}
store_line-Stored (suc left) i l word_addr mem h e =
    let v : ℕ = strtoul16 64 (take 8 (drop ((3 - i) * 8) l)) % 2 ^ 32 in
    let rest =
      store_line-Stored left (i + 1) l word_addr (store mem (word_addr + i) v) h (omega arith) in
    record {
      out = rest.out;
      returns = store_line_step left i l word_addr mem h.0 (omega arith) ∙ rest.returns;
      words = λ k le lt. elim (ℕ_discrete k i) [
        | yes same ↦ rw same (
            rest.outside (word_addr + i) (inl (omega arith))
            ∙ store_self mem (word_addr + i) v
            ∙ word_read l i h (omega arith))
        | no other ↦ rest.words k (omega arith) lt
      ];
      outside =
          λ a o. rest.outside a (omega arith) ∙ store_ne mem (word_addr + i) v a (omega arith);
    }

-- What a load of lines leaves behind, from word `o` on.
pub record IsLoaded (ls : List Chars) (o : ℕ) (mem : Memory) (result : Load) : Type 0 where
  pub out : Memory
  pub returns : result ≡ loaded out (o + 4 * length ls)
  pub words :
      (n i : ℕ) (l : Chars) → get_elem? ls n ≡ some l → i < 4 → out (o + 4 * n + i) ≡ line_value l i
  pub outside : (a : ℕ) → (a < o) ⊎ (o + 4 * length ls ≤ a) → out a ≡ mem a

IsLoaded-cons :
    (size : ℕ) (l : Chars) (ls : List Chars) (o : ℕ) (mem : Memory)
    → o < size
    → (first : Stored l 0 4 o mem (store_line 4 0 l o mem))
    → IsLoaded ls (o + 4) first.out (load_lines size ls (o + 4) first.out)
    → IsLoaded (l ∷ ls) o mem (load_lines size (l ∷ ls) o mem)
IsLoaded-cons size l ls o mem lt first rest = record {
  out = rest.out;
  returns =
      load_lines_step size l ls o mem first.out lt first.returns
      ∙ rest.returns
      ∙ ap (loaded rest.out) (omega arith);
  words = words;
  outside = λ a out. rest.outside a (omega arith) ∙ first.outside a (omega arith);
}
  where
    at_first : (i : ℕ) → o + 4 * 0 + i ≡ o + i
    at_first i = omega arith

    at_later : (n i : ℕ) → o + 4 * suc n + i ≡ o + 4 + 4 * n + i
    at_later n i = omega arith

    words :
        (n i : ℕ) (k : Chars)
        → get_elem? (l ∷ ls) n ≡ some k
        → i < 4
        → rest.out (o + 4 * n + i) ≡ line_value k i
    words zero i k at below =
        ap rest.out (at_first i)
        ∙ rest.outside (o + i) (inl (omega arith))
        ∙ first.words i (omega arith) below
        ∙ ap (λ t. line_value t i) (some_eq at)
    words (suc n) i k at below = ap rest.out (at_later n i) ∙ rest.words n i k at below

load_lines-IsLoaded :
    (size : ℕ) (ls : List Chars) (o : ℕ) (mem : Memory)
    → All IsLine ls
    → o + 4 * length ls ≤ size
    → IsLoaded ls o mem (load_lines size ls o mem)
load_lines-IsLoaded size [] o mem h le = record {
  out = mem;
  returns = unfold load_lines in ap (loaded mem) (omega arith);
  words = λ n i l at lt. cc;
  outside = λ a out. refl;
}
load_lines-IsLoaded size (l ∷ ls) o mem (hl, h) le =
    IsLoaded-cons size l ls o mem (omega arith) (store_line-Stored 4 0 l o mem hl refl) (
      load_lines-IsLoaded size ls (o + 4) (store_line-Stored 4 0 l o mem hl refl).out h
        (omega arith))

-- A `code.hex` of lines of 32 digits that fits the memory is loaded, and the memory has the words of
-- each line, the last eight digits first, from the word address of the offset on; nothing else
-- changes.
pub load_hex_file-IsLoaded :
    (size offset : ℕ) (ls : List Chars) (necessary : Bool) (mem : Memory)
    → All IsLine ls
    → offset / 4 + 4 * length ls ≤ size
    → IsLoaded ls (offset / 4) mem (load_hex_file size (some ls) offset necessary mem)
unfolding load_hex_file
load_hex_file-IsLoaded size offset ls necessary mem h le =
    load_lines-IsLoaded size ls (offset / 4) mem h le

-- The test bench and the board loader agree: for the same lines of 32 hexadecimal digits, if no
-- digit stands behind the array of the board loader and the lines fit both memories, both loads
-- succeed and every AXI word of the program is the same in both memories.
pub load_hex_file-send_program :
    (size clear : ℕ) (ls : List Chars) (garbage behind : Chars) (bench board : Memory)
    → All IsLine ls
    → length garbage ≡ 8
    → EndsNumber behind
    → 4 * length ls ≤ size
    → (out : Memory) × (end : ℕ) × (s : Cursor) × (load_hex_file size (some ls) 0 true bench
        ≡ loaded out end)
      × (send_program garbage behind clear (32 * length ls) (concat ls ++ []) board ≡ some s)
      × ((a : ℕ) → a < 4 * length ls → out a ≡ s.mem a)
load_hex_file-send_program size clear ls garbage behind bench board h g ends le =
    let l = load_hex_file-IsLoaded size 0 ls true bench h (omega arith) in
    let t = send_program-IsSent ls garbage behind [] clear board h g ends in
    (l.out, 0 + 4 * length ls, t.final, l.returns, t.returns, λ a lt. same l t a lt)
  where
    split : (a : ℕ) → a ≡ 4 * (a / 4) + a % 4
    split a = omega arith

    same :
        (l : IsLoaded ls (0 / 4) bench (load_hex_file size (some ls) 0 true bench))
        (t : IsSent ls clear board
          (send_program garbage behind clear (32 * length ls) (concat ls ++ []) board))
        (a : ℕ)
        → a < 4 * length ls
        → l.out a ≡ t.final.mem a
    same l t a lt =
        let (x, at) = get_elem?-some ls (a / 4) (omega arith) in
        ap l.out (omega arith)
        ∙ l.words (a / 4) (a % 4) x at (omega arith)
        ∙ sym (ap t.final.mem (split a) ∙ t.words (a / 4) (a % 4) x at (omega arith))
