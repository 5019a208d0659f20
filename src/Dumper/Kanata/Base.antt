-- ===== src/Dumper/Kanata/Base.antt =====
-- Dumper.h, class `KanataDumper`: the stage numbers, the helpers and the lines of the log.
use rsd_mp.Common.{ℕ, zero, suc, ◌-◌, ◌*◌, ◌/◌, ◌%◌, ◌^◌, List, [], ◌∷◌, ◌++◌, Bool}
use rsd_mp.Common.{Option, none, some, ◌==◌, ltb, if◌then◌else◌, take, length, ◌||◌}
use rsd_mp.Common.Text.{Chars, codes}
use rsd_mp.Common.Format.{dec, hex8, dec11, bit}

abbrev pub ks_np : ℕ
ks_np = 0

abbrev pub ks_if : ℕ
ks_if = 1

abbrev pub ks_pd : ℕ
ks_pd = 2

abbrev pub ks_id : ℕ
ks_id = 3

abbrev pub ks_rn : ℕ
ks_rn = 4

abbrev pub ks_ds : ℕ
ks_ds = 5

abbrev pub ks_sc : ℕ
ks_sc = 6

abbrev pub ks_is : ℕ
ks_is = 7

abbrev pub ks_rr : ℕ
ks_rr = 8

abbrev pub ks_ex : ℕ
ks_ex = 9

abbrev pub ks_ma : ℕ
ks_ma = 10

abbrev pub ks_mt : ℕ
ks_mt = 11

abbrev pub ks_rw : ℕ
ks_rw = 12

abbrev pub ks_wc : ℕ
ks_wc = 13

abbrev pub ks_cm : ℕ
ks_cm = 14

-- The header with the comments on the format; the two lines of `ProceedCycle`, with the number of
-- cycles before it; a line `S` of a stage; a line `L` of an instruction.
pub data LogLine : Type 0 where
  header : LogLine
  cycle : ℕ → LogLine
  stage : ℕ → Bool → Bool → Bool → ℕ → ℕ → Chars → LogLine
  code : ℕ → ℕ → ℕ → ℕ → LogLine

tab : Chars
tab = b'\t' ∷ []

-- The text that is written. Numbers are bit patterns of 32 bits.
pub render : LogLine → Chars
unfolding tab
render header =
    codes
      "RSD_Kanata\t0000\n#\tS:\n#\tstage_id\tvalid\tstall\tclear\tiid\tmid\n#\tL:\n#\tiid\tmid\tpc\tcode\n"
render (cycle n) =
    codes "C\t" ++ (dec11 1 ++ (codes "\n#\tcycle:" ++ (dec (n % 2 ^ 32) ++ codes "\n")))
render (stage id valid stall clear sid mid str) =
    codes "S\t"
    ++ (dec id
        ++ (tab
            ++ (bit valid
                ++ (tab
                    ++ (bit stall
                        ++ (tab
                            ++ (bit clear
                                ++ (tab
                                    ++ (dec sid
                                        ++ (tab
                                            ++ (dec mid ++ (tab ++ (str ++ codes "\n")))))))))))))
render (code sid mid pc insn) =
    codes "L\t"
    ++ (dec sid ++ (tab ++ (dec mid ++ (tab ++ (hex8 pc ++ (tab ++ (hex8 insn ++ codes "\n")))))))

-- `vsnprintf` with a buffer of `size` bytes: what it stores, and the length that it returns. `text`
-- is the formatted text, or `none` where the conversion fails, which returns -1.
unfoldable pub vsnprintf : ℕ → Option Chars → Chars × Option ℕ
vsnprintf size none = ([], none)
vsnprintf size (some text) = (take (size - 1) text, some (length text))

-- The loop of `FormatString` from a buffer of `size` bytes on; `none` means that the fuel ran out.
unfoldable pub format_loop : ℕ → ℕ → Option Chars → Option Chars
unfolding vsnprintf
format_loop zero size text = none
format_loop (suc fuel) size text =
    let rest = format_loop fuel (size * 2) text in
    let (buf, write_size) = vsnprintf size text in
    elim write_size [ none ↦ rest | some n ↦ if ltb n size then some buf else rest ]

-- `Bin2Str` with `i` bits left to print.
unfoldable pub bin_loop : ℕ → ℕ → Bool → Chars → Chars
bin_loop zero b start dst = if start then dst else b'0' ∷ []
bin_loop (suc i) b start dst =
    let s = (b / 2 ^ i) % 2 == 1 in
    bin_loop i b (start || s) (if start || s then dst ++ (if s then b'1' else b'0') ∷ [] else dst)

unfoldable pub bin_to_str : ℕ → ℕ → Bool → Chars
unfolding bin_loop
bin_to_str b length zero_padding = bin_loop length b zero_padding []

-- A line only for a valid operation.
unfoldable pub dump_stage : ℕ → Bool → Bool → Bool → ℕ → ℕ → Chars → List LogLine
dump_stage id valid stall clear sid mid str =
    if valid then stage id valid stall clear sid mid str ∷ [] else []

unfoldable pub dump_insn_code : ℕ → ℕ → ℕ → ℕ → List LogLine
dump_insn_code sid mid pc insn = code sid mid pc insn ∷ []

-- A loop over the entries of a stage.
unfoldable pub for_each {ℓ} : {A : Type ℓ} → (A → List LogLine) → List A → List LogLine
for_each f [] = []
for_each f (x ∷ xs) = f x ++ for_each f xs
