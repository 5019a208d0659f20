-- ===== src/LinuxLoader/File.antt =====
-- loader.c: reading the file, line by line, into the array `prog`.
pub mod Laws
use rsd_mp.Common.{
  ℕ, zero, suc, ◌+◌, ◌-◌, ◌*◌, List, [], ◌∷◌, ◌++◌, Bool, true, false, Option, none, some, ◌==◌,
  leb, ltb, if◌then◌else◌, length, set,
}
use rsd_mp.Common.Text.{Chars}
use rsd_mp.Common.Memory.{Memory}

abbrev pub memory_word_char_size : ℕ
memory_word_char_size = 32

-- An array of `n` characters with what memory holds from `i` on.
unfoldable pub uninitialised : ℕ → ℕ → Memory → Chars
uninitialised zero i mem = []
uninitialised (suc n) i mem = mem i ∷ uninitialised n (suc i) mem

-- Up to `n` characters, to the end of the line at most, and what is left of the file.
unfoldable pub take_line : ℕ → Chars → Chars × Chars
take_line zero cs = ([], cs)
take_line (suc n) [] = ([], [])
take_line (suc n) (c ∷ cs) =
    let rest = take_line n cs in if c == b'\n' then (c ∷ [], cs) else (c ∷ rest.0, rest.1)

-- `fgets` with room for `size` characters, the null character included. `none` is a null pointer.
unfoldable pub fgets : ℕ → Chars → Option (Chars × Chars)
unfolding take_line
fgets size [] = none
fgets size (c ∷ cs) = some (take_line (size - 1) (c ∷ cs))

-- An array after the characters of a text have been stored at its start; those that lie behind it are
-- lost.
unfoldable pub overwrite : Chars → Chars → Chars
overwrite [] old = old
overwrite (c ∷ cs) [] = []
overwrite (c ∷ cs) (o ∷ os) = c ∷ overwrite cs os

-- `prog[j + i * MEMORY_WORD_CHAR_SIZE] = line[j]` for all `j`; a write behind `prog` is `none`.
unfoldable pub put_line : Chars → ℕ → Chars → Option Chars
put_line [] at prog = some prog
put_line (c ∷ cs) at prog = elim (ltb at (length prog)) [
  | true ↦ put_line cs (suc at) (set prog at c)
  | false ↦ none
]

-- The message `code.hex size mismatch`, or the program.
pub data Reading : Type 0 where
  mismatch : Reading
  complete : Chars → Reading

-- The loop with `left` rounds left. `fgets` is told of three characters more than `line` has: what it
-- stores has to fit `line` and the `slack` behind it, otherwise it is undefined.
unfoldable pub read_loop : ℕ → ℕ → ℕ → Chars → Chars → Chars → Option Reading
unfolding fgets overwrite put_line
read_loop slack zero i line prog file = some (complete prog)
read_loop slack (suc left) i line prog file = elim (fgets (memory_word_char_size + 3) file) [
  | none ↦ some mismatch
  | some (text, rest) ↦ elim (leb (suc (length text)) (memory_word_char_size + slack)) [
    | false ↦ none
    | true ↦
        let line' = overwrite (text ++ 0 ∷ []) line in
        elim (put_line line' (i * memory_word_char_size) prog) [
          | none ↦ none
          | some prog' ↦ read_loop slack left (suc i) line' prog' rest
        ]
  ]
]

-- The loop ends when `i` is `program_wordsize` or more, which it tests after a round.
unfoldable pub read_file : ℕ → ℕ → Chars → Chars → Chars → Option Reading
unfolding read_loop
read_file slack program_wordsize line prog file =
    read_loop slack (suc (program_wordsize - 1)) 0 line prog file
