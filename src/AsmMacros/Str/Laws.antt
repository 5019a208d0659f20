-- ===== src/AsmMacros/Str/Laws.antt =====
-- rsd-asm-macros.h: what RSD_IO_WRITE_STR prints, and that it ends.
use rsd_mp.Common.{
  ℕ, suc, ◌+◌, ◌%◌, ◌^◌, ◌<◌, [], ◌∷◌, ◌++◌, Bool, true, false, Option, some, ◌==◌, ◌≡◌, refl, sym,
  ap, ◌∙◌, arith, length, append_assoc, append-nil, subst,
}
use rsd_mp.Common.Text.{Chars}
use rsd_mp.Common.Memory.{Memory, store}
use rsd_mp.AsmMacros.{
  State, exec, run, set_reg, store_word, la, li, mv, sw, rsd_serial_addr, a0, t0, t1,
}
use rsd_mp.AsmMacros.Str.{str_loop, rsd_io_write_str}

-- A string in memory, with the null character behind it, that ends below the address space's end.
abbrev pub IsString : Memory → ℕ → Chars → Type 0
IsString mem a [] = (mem a ≡ 0) × (a + 1 < 2 ^ 32)
IsString mem a (c ∷ cs) =
    (mem a ≡ c) × (0 < c) × (c < 2 ^ 8) × (a + 1 < 2 ^ 32) × IsString mem (a + 1) cs

pub record IsShown (s : State) (cs : Chars) (result : Option State) : Type 0 where
  pub final : State
  pub returns : result ≡ some final
  pub out : final.out ≡ s.out ++ cs
  pub mem : final.mem ≡ s.mem
  pub a0_cleared : final.regs a0 ≡ 0

-- The state after a round that prints `c`.
abbrev shown : State → State
shown s = record {
  regs = store (store s.regs a0 (s.mem (s.regs t0))) t0 ((s.regs t0 + 1) % 2 ^ 32);
  mem = s.mem;
  out = s.out ++ s.mem (s.regs t0) % 2 ^ 8 ∷ [];
}

-- The state behind the branch.
abbrev loaded : State → State
loaded s = record s {
  regs = store (store s.regs a0 (s.mem (s.regs t0))) t0 ((s.regs t0 + 1) % 2 ^ 32);
}

str_loop_round :
    (fuel : ℕ) (s : State)
    → (s.mem (s.regs t0) == 0) ≡ false
    → s.regs t1 ≡ rsd_serial_addr
    → str_loop (suc fuel) s ≡ str_loop fuel (shown s)
unfolding str_loop exec set_reg store_word
str_loop_round fuel s e p =
    ap (λ (b : Bool). elim b [ true ↦ some (loaded s) | false ↦ str_loop fuel (sent (s.regs t1)) ])
      e
    ∙ ap (λ (a : ℕ). str_loop fuel (sent a)) p
  where
    sent : ℕ → State
    sent a = store_word ((a + 0) % 2 ^ 32) (s.mem (s.regs t0)) (loaded s)

str_loop_end : (fuel : ℕ) (s : State) → s.mem (s.regs t0) ≡ 0 → IsShown s [] (str_loop (suc fuel) s)
unfolding str_loop exec set_reg
str_loop_end fuel s e =
    let z : (s.mem (s.regs t0) == 0) ≡ true = ap (λ (t : ℕ). t == 0) e in
    record {
      final = loaded s;
      returns =
          ap
            (λ (b : Bool). elim b [
              | true ↦ some (loaded s)
              | false ↦ str_loop fuel (exec (sw a0 0 t1) (loaded s))
            ])
            z;
      out = sym (append-nil s.out);
      mem = refl;
      a0_cleared = e;
    }

str_loop-IsShown :
    (cs : Chars) (s : State)
    → IsString s.mem (s.regs t0) cs
    → s.regs t1 ≡ rsd_serial_addr
    → IsShown s cs (str_loop (suc (length cs)) s)
unfolding store
str_loop-IsShown [] s (e, fits) p = str_loop_end 0 s e
str_loop-IsShown (c ∷ cs) s (e, pos, lt, fits, h) p =
    let step : (s.regs t0 + 1) % 2 ^ 32 ≡ s.regs t0 + 1 = omega arith in
    let rest = str_loop-IsShown cs (shown s) (moved step h) p in
    record {
      final = rest.final;
      returns =
          str_loop_round (suc (length cs)) s (not_zero (s.mem (s.regs t0)) (omega arith)) p
          ∙ rest.returns;
      out =
          rest.out
          ∙ append_assoc s.out (_ ∷ []) cs
          ∙ ap (λ x. s.out ++ x ∷ cs) (byte (s.mem (s.regs t0)) e);
      mem = rest.mem;
      a0_cleared = rest.a0_cleared;
    }
  where
    not_zero : (n : ℕ) → 0 < n → (n == 0) ≡ false
    not_zero n less = ground arith

    byte : (n : ℕ) → n ≡ c → n % 2 ^ 8 ≡ c
    byte n same = omega arith

    moved :
        (s.regs t0 + 1) % 2 ^ 32 ≡ s.regs t0 + 1
        → IsString s.mem (s.regs t0 + 1) cs
        → IsString (shown s).mem ((shown s).regs t0) cs
    moved step h = unfold store in subst (λ a. IsString s.mem a cs) (sym step) h

-- For a string without null characters that ends below the end of the address space, as many rounds
-- as it has characters, and one, are enough; the macro prints the string, changes no memory and
-- leaves 0 in `a0`.
pub rsd_io_write_str-IsShown :
    (cs : Chars) (label : ℕ) (s : State)
    → IsString s.mem label cs
    → IsShown s cs (rsd_io_write_str (suc (length cs)) label s)
unfolding rsd_io_write_str run exec set_reg
rsd_io_write_str-IsShown cs label s h =
    let begun = run (la a0 label ∷ mv t0 a0 ∷ li t1 rsd_serial_addr ∷ []) s in
    let r = str_loop-IsShown cs begun h refl in
    record {
      final = r.final;
      returns = r.returns;
      out = r.out;
      mem = r.mem;
      a0_cleared = r.a0_cleared;
    }
