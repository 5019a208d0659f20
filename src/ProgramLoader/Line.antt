-- ===== src/ProgramLoader/Line.antt =====
-- A line of `code.hex`: 32 digits, which are four AXI words of eight.
use rsd_mp.Common.{ℕ, ◌+◌, ◌-◌, ◌*◌, ◌≤◌, ◌++◌}
use rsd_mp.Common.{◌≡◌, ◌∙◌, arith, All, length, ap₂}
use rsd_mp.Common.{
  take, drop, length-take, length-drop, All-take, All-drop, take-append-drop, sym, subst,
}
use rsd_mp.Common.Text.{Chars, scan_hex, IsHex}
use rsd_mp.ProgramLoader.Word.{Word, chars, to_word}

abbrev pub IsLine : Chars → Type 0
IsLine l = (length l ≡ 32) × All IsHex l

-- The value of AXI word `i` of a line: the characters from `(3 - i) * 8` on.
unfoldable pub line_value : Chars → ℕ → ℕ
line_value l i = scan_hex (take 8 (drop ((3 - i) * 8) l)) 0

-- A line is four words of digits.
pub record Parts (l : Chars) : Type 0 where
  pub a : Word
  pub b : Word
  pub c : Word
  pub d : Word
  pub spells : l ≡ chars a ++ (chars b ++ (chars c ++ chars d))
  pub a_hex : All IsHex (chars a)
  pub b_hex : All IsHex (chars b)
  pub c_hex : All IsHex (chars c)
  pub d_hex : All IsHex (chars d)

piece :
    (n : ℕ) (l : Chars)
    → n + 8 ≤ length l
    → All IsHex l
    → (w : Word) × (take 8 (drop n l) ≡ chars w) × All IsHex (chars w)
piece n l le h =
    let (w, e) =
      to_word (take 8 (drop n l)) (length-take 8 (drop n l) (omega (arith, length-drop n l))) in
    (w, e, subst (All IsHex) e (All-take IsHex 8 (drop n l) (All-drop IsHex n l h)))

piece_last :
    (l : Chars) → length l ≡ 8 → All IsHex l → (w : Word) × (l ≡ chars w) × All IsHex (chars w)
piece_last l e h = let (w, p) = to_word l e in (w, p, subst (All IsHex) p h)

eight_more : (l : Chars) → take 8 l ++ drop 8 l ≡ l
eight_more l = take-append-drop 8 l

pub IsLine-Parts : (l : Chars) → IsLine l → Parts l
IsLine-Parts l (len, h) =
    let l1 = drop 8 l in
    let l2 = drop 8 l1 in
    let l3 = drop 8 l2 in
    let n1 : length l1 ≡ 24 = omega (arith, length-drop 8 l) in
    let n2 : length l2 ≡ 16 = omega (arith, length-drop 8 l1) in
    let n3 : length l3 ≡ 8 = omega (arith, length-drop 8 l2) in
    let h1 : All IsHex l1 = All-drop IsHex 8 l h in
    let h2 : All IsHex l2 = All-drop IsHex 8 l1 h1 in
    let (a, ea, ha) = piece 0 l (omega arith) h in
    let (b, eb, hb) = piece 0 l1 (omega arith) h1 in
    let (c, ec, hc) = piece 0 l2 (omega arith) h2 in
    let (d, ed, hd) = piece_last l3 n3 (All-drop IsHex 8 l2 h2) in
    record {
      a = a;
      b = b;
      c = c;
      d = d;
      spells = sym (
          ap₂ ◌++◌ (sym ea)
            (ap₂ ◌++◌ (sym eb) (ap₂ ◌++◌ (sym ec) (sym ed) ∙ eight_more l2) ∙ eight_more l1)
          ∙ eight_more l);
      a_hex = ha;
      b_hex = hb;
      c_hex = hc;
      d_hex = hd;
    }
