-- ===== src/RunSimple/Image/Laws.antt =====
-- The text of the program has the form that the transfer loop relies on.
use Prim.Native.String.{String}
use rsd_mp.Common.{
  ℕ, suc, ◌+◌, List, [], ◌∷◌, ◌++◌, map, Bool, true, false, ◌&&◌, ◌≡◌, refl, arith, none, some,
}
use rsd_mp.Common.{◌==◌, length, All, All-append, replicate, All-replicate, length-append, ap, ◌∙◌}
use rsd_mp.Common.Text.{Chars, codes, hex_value?, IsHex}
use rsd_mp.ProgramLoader.Line.{IsLine}
use rsd_mp.RunSimple.Image.{
  zero_line, page_0, page_2_data, page_2, page_3, page_4, page_5, page_6, page_7, page_8,
}
use rsd_mp.RunSimple.Image.{
  page_9, page_10, page_11, page_12, page_13, page_14, page_15, program_lines,
}
use rsd_mp.RunSimple.Image.Page1.{page_1}

unfoldable pub is_hex : ℕ → Bool
is_hex c = elim (hex_value? c) [ none ↦ false | some d ↦ true ]

unfoldable pub all_hex : Chars → Bool
unfolding is_hex
all_hex [] = true
all_hex (c ∷ cs) = is_hex c && all_hex cs

unfoldable pub all_lines : List String → Bool
unfolding all_hex
all_lines [] = true
all_lines (l ∷ ls) = (length (codes l) == 32 && all_hex (codes l)) && all_lines ls

is_hex-IsHex : (c : ℕ) → is_hex c ≡ true → IsHex c
unfolding is_hex
is_hex-IsHex c h = ground arith

all_hex-IsHex : (cs : Chars) → all_hex cs ≡ true → All IsHex cs
unfolding all_hex
all_hex-IsHex [] h = tt
all_hex-IsHex (c ∷ cs) h = (is_hex-IsHex c (ground arith), all_hex-IsHex cs (ground arith))

abbrev pub AreLines : List String → Type 0
AreLines = All (λ l. IsLine (codes l))

pub all_lines-AreLines : (ls : List String) → all_lines ls ≡ true → AreLines ls
unfolding all_lines
all_lines-AreLines [] h = tt
all_lines-AreLines (l ∷ ls) h =
    ((ground arith, all_hex-IsHex (codes l) (ground arith)), all_lines-AreLines ls (ground arith))

blank : (n : ℕ) → AreLines (replicate n zero_line)
blank n =
    All-replicate _ n zero_line
      (all_lines-AreLines (zero_line ∷ []) (unfold all_lines hex_value? in refl)).0

page_1-AreLines : AreLines page_1
page_1-AreLines = all_lines-AreLines page_1 (unfold all_lines page_1 hex_value? in refl)

page_2-AreLines : AreLines page_2
unfolding page_2
page_2-AreLines =
    All-append _ page_2_data (replicate 208 zero_line)
      (all_lines-AreLines page_2_data (unfold all_lines hex_value? in refl)) (blank 208)

two : (xs ys : List String) → AreLines xs → AreLines ys → AreLines (xs ++ ys)
two = All-append _

blank_pages : AreLines (
    page_3
    ++ (page_4
        ++ (page_5
            ++ (page_6
                ++ (page_7
                    ++ (page_8
                        ++ (page_9
                            ++ (page_10
                                ++ (page_11
                                    ++ (page_12 ++ (page_13 ++ (page_14 ++ page_15))))))))))))
unfolding page_3 page_4 page_5 page_6 page_7 page_8 page_9 page_10 page_11 page_12 page_13 page_14
    page_15
blank_pages = two _ _ (blank 256) (
    two _ _ (blank 256) (
      two _ _ (blank 256) (
        two _ _ (blank 256) (
          two _ _ (blank 256) (
            two _ _ (blank 256) (
              two _ _ (blank 256) (
                two _ _ (blank 256) (
                  two _ _ (blank 256) (
                    two _ _ (blank 256)
                      (two _ _ (blank 256) (two _ _ (blank 256) (blank 256))))))))))))

pub program_lines-AreLines : AreLines program_lines
unfolding program_lines page_0
program_lines-AreLines =
    two _ _ (blank 256) (two _ _ page_1-AreLines (two _ _ page_2-AreLines blank_pages))

length_page : {n : ℕ} (xs ys : List String) → length ys ≡ n → length (xs ++ ys) ≡ length xs + n
length_page xs ys e = length-append xs ys ∙ ap (λ (t : ℕ). length xs + t) e

pub length-program_lines : length program_lines ≡ 4096
unfolding program_lines page_0 page_1 page_2 page_3 page_4 page_5 page_6 page_7 page_8 page_9
    page_10 page_11 page_12 page_13 page_14 page_15 replicate
length-program_lines = refl

pub map-AreLines : (ls : List String) → AreLines ls → All IsLine (map codes ls)
map-AreLines [] h = tt
map-AreLines (l ∷ ls) (hl, h) = (hl, map-AreLines ls h)

pub program_lines-IsLine : All IsLine (map codes program_lines)
program_lines-IsLine = map-AreLines program_lines program_lines-AreLines

length-map : (ls : List String) → length (map codes ls) ≡ length ls
length-map [] = refl
length-map (l ∷ ls) = ap suc (length-map ls)

pub length-map-program_lines : length (map codes program_lines) ≡ 4096
length-map-program_lines = length-map program_lines ∙ length-program_lines
