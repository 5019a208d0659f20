-- ===== src/AsmMacros/Gpr.antt =====
-- rsd-asm-macros.h: what RSD_IO_WRITE_GPR prints, and what it leaves in the registers.
use rsd_mp.Common.{
  inl, inr, ℕ, ◌+◌, ◌/◌, ◌%◌, ◌^◌, ◌<◌, ◌≤◌, List, [], ◌∷◌, ◌++◌, false, ◌==◌, ◌≡◌, ◌⊎◌, refl, ap,
  ◌∙◌, arith,
}
use rsd_mp.Common.Memory.{Memory, store}
use rsd_mp.Common.Memory.Laws.{store_ne}
use rsd_mp.AsmMacros.{
  State, Instr, run, exec, rsd_io_write_byte, save_registers, next_byte, rsd_serial_addr, ra, a0,
  a1, t0, mv, srli, sw, store_word,
}
use rsd_mp.AsmMacros.Byte.{IsTable, IsPrinted, rsd_io_write_byte-IsPrinted}

pub run-append : (xs ys : List Instr) (s : State) → run (xs ++ ys) s ≡ run ys (run xs s)
unfolding run
run-append [] ys s = refl
run-append (x ∷ xs) ys s = run-append xs ys (exec x s)

pub next_byte-IsPrinted :
    (s : State) (n table : ℕ)
    → IsTable s.mem table
    → IsPrinted s (s.regs a1 / 2 ^ n) (run (next_byte n table) s)
unfolding run next_byte
next_byte-IsPrinted s n table h =
    let p =
      rsd_io_write_byte-IsPrinted
        (record s { regs = store (store s.regs a0 (s.regs a1)) a0 (s.regs a1 / 2 ^ n) }) table a0
        h in
    record { out = p.out; mem = p.mem; copy = p.copy }

pub last_byte-IsPrinted :
    (s : State) (table : ℕ)
    → IsTable s.mem table
    → IsPrinted s (s.regs a1) (run (mv a0 a1 ∷ rsd_io_write_byte table a0) s)
unfolding run
last_byte-IsPrinted s table h =
    let p =
      rsd_io_write_byte-IsPrinted (record s { regs = store s.regs a0 (s.regs a1) }) table a0 h in
    record { out = p.out; mem = p.mem; copy = p.copy }

-- The memory with a word.
abbrev word_at : ℕ → ℕ → Memory → Memory
word_at a v mem =
    store
      (store (store (store mem a (v % 2 ^ 8)) (a + 1) (v / 2 ^ 8 % 2 ^ 8)) (a + 2)
        (v / 2 ^ 16 % 2 ^ 8))
      (a + 3) (v / 2 ^ 24 % 2 ^ 8)

store_word_lem :
    (a v : ℕ) (s : State)
    → (a == rsd_serial_addr) ≡ false
    → store_word a v s ≡ record s { mem = word_at a v s.mem }
unfolding store_word
store_word_lem a v s e = rw e refl

word_at-other : (a v b : ℕ) (mem : Memory) → (b < a) ⊎ (a + 4 ≤ b) → word_at a v mem b ≡ mem b
word_at-other a v b mem h =
    store_ne
      (store (store (store mem a (v % 2 ^ 8)) (a + 1) (v / 2 ^ 8 % 2 ^ 8)) (a + 2)
        (v / 2 ^ 16 % 2 ^ 8))
      (a + 3) (v / 2 ^ 24 % 2 ^ 8) b (λ e. omega arith)
    ∙ store_ne (store (store mem a (v % 2 ^ 8)) (a + 1) (v / 2 ^ 8 % 2 ^ 8)) (a + 2)
        (v / 2 ^ 16 % 2 ^ 8) b (λ e. omega arith)
    ∙ store_ne (store mem a (v % 2 ^ 8)) (a + 1) (v / 2 ^ 8 % 2 ^ 8) b (λ e. omega arith)
    ∙ store_ne mem a (v % 2 ^ 8) b (λ e. omega arith)

-- The words for the registers lie below the serial port or behind it.
abbrev pub IsSaveArea : ℕ → Type 0
IsSaveArea save =
    (save + 12 ≤ 2 ^ 32) × ((save + 12 ≤ rsd_serial_addr) ⊎ (rsd_serial_addr + 4 ≤ save))

away : (save k : ℕ) → IsSaveArea save → k ≤ 8 → ((save + k) % 2 ^ 32 == rsd_serial_addr) ≡ false
away save k h lt = ground arith

-- The memory after the registers have been saved.
abbrev pub saved : ℕ → State → Memory
saved save s =
    word_at ((save + 8) % 2 ^ 32) (s.regs a1)
      (word_at ((save + 4) % 2 ^ 32) (s.regs a0) (word_at ((save + 0) % 2 ^ 32) (s.regs ra) s.mem))

pub saved-other :
    (save b : ℕ) (s : State)
    → save + 12 ≤ 2 ^ 32
    → (b < save) ⊎ (save + 12 ≤ b)
    → saved save s b ≡ s.mem b
saved-other save b s fits h =
    word_at-other ((save + 8) % 2 ^ 32) (s.regs a1) b _ (part 8 (omega arith) h)
    ∙ word_at-other ((save + 4) % 2 ^ 32) (s.regs a0) b _ (part 4 (omega arith) h)
    ∙ word_at-other ((save + 0) % 2 ^ 32) (s.regs ra) b s.mem (part 0 (omega arith) h)
  where
    part :
        (k : ℕ)
        → k ≤ 8
        → (b < save) ⊎ (save + 12 ≤ b)
        → (b < (save + k) % 2 ^ 32) ⊎ ((save + k) % 2 ^ 32 + 4 ≤ b)
    part k le (inl below) = inl (omega arith)
    part k le (inr above) = inr (omega arith)

-- The state behind the saving and the first copies.
abbrev pub copied : ℕ → ℕ → State → State
copied save r s = record {
  regs =
      store
        (store (store (store s.regs t0 save) a0 (store s.regs t0 save r)) a1
          (store s.regs t0 save r))
        a0 (store s.regs t0 save r / 2 ^ 24);
  mem = saved save s;
  out = s.out;
}

pub save_registers_lem :
    (save r : ℕ) (s : State) → IsSaveArea save → run (save_registers save r) s ≡ copied save r s
unfolding run exec save_registers
save_registers_lem save r s h =
    ap (λ s'. run (sw a0 4 t0 ∷ sw a1 8 t0 ∷ rest) s')
      (store_word_lem ((save + 0) % 2 ^ 32) (s.regs ra) held (away save 0 h (omega arith)))
    ∙ ap (λ s'. run (sw a1 8 t0 ∷ rest) s')
        (store_word_lem ((save + 4) % 2 ^ 32) (s.regs a0)
          (record held { mem = word_at ((save + 0) % 2 ^ 32) (s.regs ra) s.mem })
          (away save 4 h (omega arith)))
    ∙ ap (λ s'. run rest s')
        (store_word_lem ((save + 8) % 2 ^ 32) (s.regs a1)
          (record held {
            mem =
                word_at ((save + 4) % 2 ^ 32) (s.regs a0)
                  (word_at ((save + 0) % 2 ^ 32) (s.regs ra) s.mem);
          })
          (away save 8 h (omega arith)))
    ∙ (unfold run exec in refl)
  where
    rest : List Instr
    rest = mv a0 r ∷ mv a1 a0 ∷ srli a0 a0 24 ∷ []

    held : State
    held = record s { regs = store s.regs t0 save }
