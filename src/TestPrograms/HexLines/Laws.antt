-- ===== src/TestPrograms/HexLines/Laws.antt =====
-- PerfromanceCounter/code.c and FP/code.c: the output reads back as the numbers.
use rsd_mp.Common.{
  ℕ, zero, suc, ◌^◌, ◌<◌, List, [], ◌∷◌, ◌++◌, map, inl, ◌≡◌, refl, ap, ◌∙◌, arith, append_assoc,
}
use rsd_mp.Common.Text.{Chars, strtoul16}
use rsd_mp.Common.Fields.{fields, fields_first, IsHex-IsField}
use rsd_mp.Serial.{serial_out_hex}
use rsd_mp.Serial.Hex.{strtoul16-serial_out_hex, serial_out_hex-IsHex}
use rsd_mp.TestPrograms.HexLines.{
  print_number, counter_loop, performance_counter, FloatOps, fp_step, fp_loop, fp_main,
}

-- The lines of a text, as `strtoul` with base 16 reads them. Behind the last end of a line there is
-- an empty text, which reads as 0.
abbrev pub read_lines : Chars → List ℕ
read_lines cs = map (strtoul16 32) (fields b'\n' cs)

read_lines-print_number :
    (v : ℕ) (cs : Chars) → v < 2 ^ 32 → read_lines (print_number v ++ cs) ≡ v ∷ read_lines cs
unfolding print_number
read_lines-print_number v cs lt =
    ap read_lines (append_assoc (serial_out_hex v) (b'\n' ∷ []) cs)
    ∙ ap (map (strtoul16 32)) (
        fields_first b'\n' (serial_out_hex v) cs
          (IsHex-IsField b'\n' (serial_out_hex v) (inl (omega arith)) (serial_out_hex-IsHex v)))
    ∙ ap (λ t. t ∷ read_lines cs) (strtoul16-serial_out_hex v lt).0

nothing_left : read_lines [] ≡ 0 ∷ []
nothing_left = unfold fields strtoul16 in refl

-- The numbers that the hardware counter has from round `i` on.
abbrev pub counts : ℕ → ℕ → (ℕ → ℕ) → List ℕ
counts zero i counter = []
counts (suc left) i counter = counter i ∷ counts left (suc i) counter

read_lines-counter_loop :
    (left i : ℕ) (counter : ℕ → ℕ)
    → ((k : ℕ) → counter k < 2 ^ 32)
    → read_lines (counter_loop left i counter) ≡ counts left i counter ++ 0 ∷ []
unfolding counter_loop
read_lines-counter_loop zero i counter h = nothing_left
read_lines-counter_loop (suc left) i counter h =
    read_lines-print_number (counter i) (counter_loop left (suc i) counter) (h i)
    ∙ ap (λ t. counter i ∷ t) (read_lines-counter_loop left (suc i) counter h)

-- The states of the loop of FP.
abbrev pub iterates : {F : Type 0} → FloatOps F → ℕ → ℕ → F → List ℕ
iterates ops zero i s = []
iterates ops (suc left) i s =
    ops.bitcast (fp_step ops i s) ∷ iterates ops left (suc i) (fp_step ops i s)

read_lines-fp_loop :
    {F : Type 0} (ops : FloatOps F) (left i : ℕ) (s : F)
    → ((x : F) → ops.bitcast x < 2 ^ 32)
    → read_lines (fp_loop ops left i s) ≡ iterates ops left i s ++ 0 ∷ []
unfolding fp_loop
read_lines-fp_loop ops zero i s h = nothing_left
read_lines-fp_loop ops (suc left) i s h =
    read_lines-print_number (ops.bitcast (fp_step ops i s))
      (fp_loop ops left (suc i) (fp_step ops i s)) (h (fp_step ops i s))
    ∙ ap (λ t. ops.bitcast (fp_step ops i s) ∷ t)
        (read_lines-fp_loop ops left (suc i) (fp_step ops i s) h)

-- What PerfromanceCounter and FP print reads back, line by line, as the ten numbers of the hardware
-- counter and as the bit patterns of the hundred states of the loop, in order, for a counter and bit
-- patterns of 32 bits.
pub read_lines-programs :
    (counter : ℕ → ℕ) {F : Type 0} (ops : FloatOps F)
    → ((k : ℕ) → counter k < 2 ^ 32)
    → ((x : F) → ops.bitcast x < 2 ^ 32)
    → (read_lines (performance_counter counter) ≡ counts 10 0 counter ++ 0 ∷ [])
      × (read_lines (fp_main ops) ≡ iterates ops 100 1 (ops.of_int 0) ++ 0 ∷ [])
unfolding performance_counter fp_main
read_lines-programs counter ops h b =
    (read_lines-counter_loop 10 0 counter h, read_lines-fp_loop ops 100 1 (ops.of_int 0) b)
