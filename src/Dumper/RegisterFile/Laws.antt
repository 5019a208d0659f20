-- ===== src/Dumper/RegisterFile/Laws.antt =====
-- Dumper.h, class `RegisterFileHexDumper`: the file reads back as the registers.
use rsd_mp.Common.{
  ℕ, zero, suc, ◌+◌, ◌-◌, ◌*◌, ◌/◌, ◌%◌, ◌^◌, ◌<◌, ◌≤◌, List, [], ◌∷◌, ◌++◌, map, true, Option,
  some, get_elem?, ◌≡◌, refl, sym, ap, ap₂, ◌∙◌, arith, All, All-append, All-replicate, length,
  take, drop, replicate, ◌==◌, Bool-cases, inl, inr, drop-get_elem?, take_all, All-drop, subst,
  length-drop, get_elem?-some,
}
use rsd_mp.Common.Text.{Chars, codes, scan_hex, hex_value?, IsHex, saturate, strtoul16}
use rsd_mp.Common.Strtoul.{
  scan_hex-some, scan_hex-none, scan_hex-append, strtoul16_prefixed, saturate_fits,
}
use rsd_mp.Common.Format.{digit_char, digits_loop, hex, hex8, pad}
use rsd_mp.Dumper.RegisterFile.{
  hex_line, register_lines, dump_registers, open_hex_dumper, new_hex_dumper,
}

digit_char-hex : (d : ℕ) → d < 16 → hex_value? (digit_char d) ≡ some d
unfolding digit_char hex_value?
digit_char-hex d lt = ground arith

digits_loop-IsHex :
    (fuel n : ℕ) (out : Chars) → All IsHex out → All IsHex (digits_loop 16 fuel n out)
unfolding digits_loop
digits_loop-IsHex zero n out h = h
digits_loop-IsHex (suc fuel) n out h = elim (Bool-cases (n / 16 == 0)) [
  | inl e ↦ rw e ((n % 16, digit_char-hex (n % 16) (omega arith)), h)
  | inr e ↦ rw e (
      digits_loop-IsHex fuel (n / 16) (digit_char (n % 16) ∷ out)
        ((n % 16, digit_char-hex (n % 16) (omega arith)), h))
]

-- The digits read as the number.
scan_hex-digits_loop :
    (fuel n : ℕ) (out : Chars) → n < fuel → scan_hex (digits_loop 16 fuel n out) 0 ≡ scan_hex out n
unfolding digits_loop
scan_hex-digits_loop zero n out lt = absurd (omega arith)
scan_hex-digits_loop (suc fuel) n out lt =
    let c : ℕ = digit_char (n % 16) in
    let first : (acc : ℕ) → scan_hex (c ∷ out) acc ≡ scan_hex out (acc * 16 + n % 16) =
      λ acc. scan_hex-some c (n % 16) out acc (digit_char-hex (n % 16) (omega arith)) in
    elim (Bool-cases (n / 16 == 0)) [
      | inl e ↦ let z : 0 * 16 + n % 16 ≡ n = ground arith in rw e (first 0 ∙ ap (scan_hex out) z)
      | inr e ↦
          let z : n / 16 * 16 + n % 16 ≡ n = omega arith in
          rw e (
            scan_hex-digits_loop fuel (n / 16) (c ∷ out) (ground arith)
            ∙ first (n / 16)
            ∙ ap (scan_hex out) z)
    ]

scan_hex-zeros : (k : ℕ) (s : Chars) → scan_hex (replicate k b'0' ++ s) 0 ≡ scan_hex s 0
unfolding replicate
scan_hex-zeros zero s = refl
scan_hex-zeros (suc k) s =
    scan_hex-some b'0' 0 (replicate k b'0' ++ s) 0 (unfold hex_value? in refl) ∙ scan_hex-zeros k s

pub hex8-IsHex : (v : ℕ) → All IsHex (hex8 v)
unfolding hex8 pad hex
hex8-IsHex v =
    All-append IsHex _ _
      (All-replicate IsHex (8 - length (hex v)) b'0' (0, unfold hex_value? in refl))
      (digits_loop-IsHex (suc v) v [] tt)

pub scan_hex-hex8 : (v : ℕ) → scan_hex (hex8 v) 0 ≡ v
unfolding hex8 pad hex scan_hex
scan_hex-hex8 v =
    scan_hex-zeros (8 - length (hex v)) (hex v) ∙ scan_hex-digits_loop (suc v) v [] (omega arith)

-- What a reader gets from a line.
pub strtoul16-hex_line : (v : ℕ) → v < 2 ^ 32 → strtoul16 32 (hex_line v) ≡ v
unfolding hex_line
strtoul16-hex_line v lt =
    strtoul16_prefixed 32 (hex8 v ++ codes "\n")
    ∙ ap (saturate 32) (
        scan_hex-append (hex8 v) (codes "\n") 0 (hex8-IsHex v)
        ∙ ap (scan_hex (codes "\n")) (scan_hex-hex8 v)
        ∙ scan_hex-none b'\n' [] v (unfold hex_value? in refl))
    ∙ saturate_fits 32 v lt

abbrev pub IsWord : ℕ → Type 0
IsWord v = v < 2 ^ 32

record Lines (left i : ℕ) (regs : List ℕ) (result : Option (List Chars)) : Type 0 where
  out : List Chars
  returns : result ≡ some out
  values : map (strtoul16 32) out ≡ take left (drop i regs)

register_lines_step :
    (left i : ℕ) (regs : List ℕ) (v : ℕ) (rest : List Chars)
    → get_elem? regs i ≡ some v
    → register_lines left (suc i) regs ≡ some rest
    → register_lines (suc left) i regs ≡ some (hex_line v ∷ rest)
unfolding register_lines
register_lines_step left i regs v rest at e = rw (at, e, register_lines)

register_lines-Lines :
    (left i : ℕ) (regs : List ℕ)
    → All IsWord regs
    → i + left ≤ length regs
    → Lines left i regs (register_lines left i regs)
unfolding register_lines
register_lines-Lines zero i regs h le = record { out = []; returns = refl; values = refl }
register_lines-Lines (suc left) i regs h le =
    let (v, at) = get_elem?-some regs i (omega arith) in
    let e = drop-get_elem? regs i v at in
    let rest = register_lines-Lines left (suc i) regs h (omega arith) in
    let lt : v < 2 ^ 32 = (subst (All IsWord) e (All-drop IsWord i regs h)).0 in
    record {
      out = hex_line v ∷ rest.out;
      returns = register_lines_step left i regs v rest.out at rest.returns;
      values =
          ap₂ (λ x xs. x ∷ xs) (strtoul16-hex_line v lt) rest.values ∙ sym (ap (take (suc left)) e);
    }

map-append :
    (xs ys : List Chars)
    → map (strtoul16 32) (xs ++ ys) ≡ map (strtoul16 32) xs ++ map (strtoul16 32) ys
map-append [] ys = refl
map-append (x ∷ xs) ys = ap (λ t. strtoul16 32 x ∷ t) (map-append xs ys)

-- For 64 registers of 32 bits and an open file, `Dump` writes lines that `strtoul` with base 16 reads
-- back, in order, as the 32 integer registers, the PC and the 32 floating-point registers.
pub strtoul16-dump_registers :
    (pc : ℕ) (regs : List ℕ)
    → pc < 2 ^ 32
    → All IsWord regs
    → length regs ≡ 64
    → (lines : List Chars) × (dump_registers pc regs (open_hex_dumper true new_hex_dumper)
        ≡ some (record { file = some lines }))
      × (map (strtoul16 32) lines ≡ take 32 regs ++ (pc ∷ drop 32 regs))
unfolding dump_registers open_hex_dumper
strtoul16-dump_registers pc regs lt h len =
    let a = register_lines-Lines 32 0 regs h (omega arith) in
    let b = register_lines-Lines 32 32 regs h (omega arith) in
    let all : take 32 (drop 32 regs) ≡ drop 32 regs =
      take_all 32 (drop 32 regs) (omega (arith, length-drop 32 regs)) in
    (
      a.out ++ (hex_line pc ∷ b.out),
      rw (a.returns, b.returns) refl,
      map-append a.out (hex_line pc ∷ b.out)
          ∙ ap₂ ◌++◌ a.values (ap₂ (λ x xs. x ∷ xs) (strtoul16-hex_line pc lt) (b.values ∙ all)),
    )
