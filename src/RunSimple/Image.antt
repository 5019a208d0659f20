-- ===== src/RunSimple/Image.antt =====
-- Processor/Project/Vivado/TargetBoards/Zedboard/project_src/run_simple.c, `programinit`: the text of
-- the program, in pages of 256 lines. A line is an entry of the memory, 16 bytes, so that a page is
-- 4 KB. The code starts at page 1, which is address 0x1000, and its data ends in page 2.
pub mod Page1
pub mod Laws
use Prim.Native.String.{String}
use mathlib.Core.List.{List, [], ◌∷◌, ◌++◌, map}
use rsd_mp.Common.{replicate, concat}
use rsd_mp.Common.Text.{Chars, codes}
use Page1.{page_1}

abbrev pub zero_line : String
zero_line = "00000000000000000000000000000000"

pub page_0 : List String
page_0 = replicate 256 zero_line

abbrev pub page_2_data : List String
page_2_data =
    "62613938373635343332313000000000" ∷ "00000000000000000000000066656463"
    ∷ "62613938373635343332313000000000" ∷ "00000000000000000000000066656463"
    ∷ "0000000000003a6370656d2000000000" ∷ "00000000000000000000000000000000"
    ∷ "62613938373635343332313000000000" ∷ "00000000000000000000000066656463"
    ∷ "62613938373635343332313000000000" ∷ "00000000000000000000000066656463"
    ∷ "62613938373635343332313000000000" ∷ "00000000000000000000000066656463"
    ∷ "62613938373635343332313000000000" ∷ "00000000000000000000000066656463"
    ∷ "00003a726464616461626d2000000000" ∷ "00000000000000000000000000000000"
    ∷ "62613938373635343332313000000000" ∷ "00000000000000000000000066656463"
    ∷ "62613938373635343332313000000000" ∷ "00000000000000000000000066656463"
    ∷ "62613938373635343332313000000000" ∷ "00000000000000000000000066656463"
    ∷ "62613938373635343332313000000000" ∷ "00000000000000000000000066656463"
    ∷ "00000000000000000000000a00000000" ∷ "00000000000000000000000000000000"
    ∷ "62613938373635343332313000000000" ∷ "00000000000000000000000066656463"
    ∷ "62613938373635343332313000000000" ∷ "00000000000000000000000066656463"
    ∷ "62613938373635343332313000000000" ∷ "00000000000000000000000066656463"
    ∷ "62613938373635343332313000000000" ∷ "00000000000000000000000066656463"
    ∷ "00000000000000000000203a00000000" ∷ "00000000000000000000000000000000"
    ∷ "62613938373635343332313000000000" ∷ "00000000000000000000000066656463"
    ∷ "62613938373635343332313000000000" ∷ "00000000000000000000000066656463"
    ∷ "62613938373635343332313000000000" ∷ "00000000000000000000000066656463"
    ∷ "62613938373635343332313000000000" ∷ "00000000000000000000000066656463"
    ∷ "00000000000000000000000a00000000" ∷ "0a2e2e2e676e6974726f626100000000"
    ∷ "0000000000000000000000006d305b1b" ∷ "00000000000000000044535200000000" ∷ []

pub page_2 : List String
page_2 = page_2_data ++ replicate 208 zero_line

pub page_3 : List String
page_3 = replicate 256 zero_line

pub page_4 : List String
page_4 = replicate 256 zero_line

pub page_5 : List String
page_5 = replicate 256 zero_line

pub page_6 : List String
page_6 = replicate 256 zero_line

pub page_7 : List String
page_7 = replicate 256 zero_line

pub page_8 : List String
page_8 = replicate 256 zero_line

pub page_9 : List String
page_9 = replicate 256 zero_line

pub page_10 : List String
page_10 = replicate 256 zero_line

pub page_11 : List String
page_11 = replicate 256 zero_line

pub page_12 : List String
page_12 = replicate 256 zero_line

pub page_13 : List String
page_13 = replicate 256 zero_line

pub page_14 : List String
page_14 = replicate 256 zero_line

pub page_15 : List String
page_15 = replicate 256 zero_line

unfoldable pub program_lines : List String
program_lines =
    page_0
    ++ (page_1
        ++ (page_2
            ++ (page_3
                ++ (page_4
                    ++ (page_5
                        ++ (page_6
                            ++ (page_7
                                ++ (page_8
                                    ++ (page_9
                                        ++ (page_10
                                            ++ (page_11
                                                ++ (page_12
                                                    ++ (page_13 ++ (page_14 ++ page_15))))))))))))))

-- What `prog` points to after `programinit`.
unfoldable pub programinit : Chars
programinit = concat (map codes program_lines)
