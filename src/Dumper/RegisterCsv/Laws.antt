-- ===== src/Dumper/RegisterCsv/Laws.antt =====
-- Dumper.h, class `RegisterFileCSV_Dumper`: a line of the file reads back as the registers.
use rsd_mp.Common.{
  inl, ℕ, zero, suc, ◌+◌, ◌^◌, ◌<◌, ◌≤◌, List, [], ◌∷◌, ◌++◌, map, Option, some, get_elem?, ◌≡◌,
  refl, sym, ap, ap₂, ◌∙◌, arith, All, All-append, length, take, drop, drop-get_elem?, All-drop,
  subst, get_elem?-some, append_assoc, take_all,
}
use rsd_mp.Common.Text.{Chars, codes, strtoul16, saturate}
use rsd_mp.Common.Strtoul.{strtoul16_prefixed, saturate_fits}
use rsd_mp.Common.Fields.{fields, IsField, fields_first, fields_last, IsHex-IsField}
use rsd_mp.Common.Format.{hex8}
use rsd_mp.Dumper.RegisterFile.Laws.{IsWord, hex8-IsHex, scan_hex-hex8, strtoul16-hex_line}
use rsd_mp.Dumper.RegisterFile.{hex_line}
use rsd_mp.Dumper.RegisterCsv.{csv_word, csv_registers, dump_csv}

csv_word-IsField : (v : ℕ) → IsField b',' (csv_word v)
unfolding csv_word
csv_word-IsField v = (refl, (refl, IsHex-IsField b',' (hex8 v) (inl (omega arith)) (hex8-IsHex v)))

strtoul16-csv_word : (v : ℕ) → v < 2 ^ 32 → strtoul16 32 (csv_word v) ≡ v
unfolding csv_word
strtoul16-csv_word v lt =
    strtoul16_prefixed 32 (hex8 v) ∙ ap (saturate 32) (scan_hex-hex8 v) ∙ saturate_fits 32 v lt

-- A field and the text of the registers behind it, with the end of the line.
record Fields (left i : ℕ) (regs : List ℕ) (result : Option Chars) : Type 0 where
  text : Chars
  returns : result ≡ some text
  values :
      (v : ℕ)
      → v < 2 ^ 32
      → map (strtoul16 32) (fields b',' (csv_word v ++ (text ++ codes "\n")))
        ≡ v ∷ take left (drop i regs)

last_values :
    (v : ℕ) → v < 2 ^ 32 → map (strtoul16 32) (fields b',' (csv_word v ++ codes "\n")) ≡ v ∷ []
last_values v lt =
    ap (map (strtoul16 32)) (
      fields_last b',' (csv_word v ++ codes "\n")
        (All-append _ _ _ (csv_word-IsField v) (refl, tt)))
    ∙ ap (λ t. t ∷ []) (unfold csv_word hex_line in strtoul16-hex_line v lt)

next_values :
    (v : ℕ) (w text : Chars)
    → v < 2 ^ 32
    → map (strtoul16 32) (fields b',' (csv_word v ++ ((b',' ∷ (w ++ text)) ++ codes "\n")))
      ≡ v ∷ map (strtoul16 32) (fields b',' (w ++ (text ++ codes "\n")))
next_values v w text lt =
    ap (map (strtoul16 32))
      (fields_first b',' (csv_word v) ((w ++ text) ++ codes "\n") (csv_word-IsField v))
    ∙ ap₂ (λ x xs. x ∷ map (strtoul16 32) (fields b',' xs)) (strtoul16-csv_word v lt)
        (append_assoc w text (codes "\n"))

csv_registers_step :
    (left i : ℕ) (regs : List ℕ) (v : ℕ) (rest : Chars)
    → get_elem? regs i ≡ some v
    → csv_registers left (suc i) regs ≡ some rest
    → csv_registers (suc left) i regs ≡ some (b',' ∷ (csv_word v ++ rest))
unfolding csv_registers
csv_registers_step left i regs v rest at e = rw (at, e, csv_registers)

csv_registers-Fields :
    (left i : ℕ) (regs : List ℕ)
    → All IsWord regs
    → i + left ≤ length regs
    → Fields left i regs (csv_registers left i regs)
unfolding csv_registers
csv_registers-Fields zero i regs h le = record { text = []; returns = refl; values = last_values }
csv_registers-Fields (suc left) i regs h le =
    let (v, at) = get_elem?-some regs i (omega arith) in
    let e = drop-get_elem? regs i v at in
    let rest = csv_registers-Fields left (suc i) regs h (omega arith) in
    let lt : v < 2 ^ 32 = (subst (All IsWord) e (All-drop IsWord i regs h)).0 in
    record {
      text = b',' ∷ (csv_word v ++ rest.text);
      returns = csv_registers_step left i regs v rest.text at rest.returns;
      values = λ u small.
          next_values u (csv_word v) rest.text small
          ∙ ap (λ t. u ∷ t) (rest.values v lt ∙ sym (ap (take (suc left)) e));
    }

-- For 64 registers of 32 bits and an open file, `Dump` adds one line to the file, whose fields
-- `strtoul` with base 16 reads back, in order, as the PC and the registers.
pub strtoul16-dump_csv :
    (pc cycles : ℕ) (regs : List ℕ) (before : List Chars)
    → pc < 2 ^ 32
    → All IsWord regs
    → length regs ≡ 64
    → (line : Chars) × (dump_csv pc regs (record { file = some before; cycles = cycles })
        ≡ some (record { file = some (before ++ line ∷ []); cycles = cycles }))
      × (map (strtoul16 32) (fields b',' line) ≡ pc ∷ regs)
unfolding dump_csv
strtoul16-dump_csv pc cycles regs before lt h len =
    let r = csv_registers-Fields 64 0 regs h (omega arith) in
    (
      csv_word pc ++ (r.text ++ codes "\n"),
      rw (r.returns) refl,
      r.values pc lt ∙ ap (λ t. pc ∷ t) (take_all 64 regs (omega arith)),
    )
