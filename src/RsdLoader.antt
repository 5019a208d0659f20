-- ===== src/RsdLoader.antt =====
-- Processor/Src/Verification/TestCode/rsd-loader.c: the loader that a program runs first, to copy
-- its initialised data from ROM to RAM and to clear its other data.
pub mod Laws
use rsd_mp.Common.{ℕ, ◌-◌, ◌+◌, ◌%◌, ◌^◌}
use rsd_mp.Common.Memory.{Memory, copy_loop, fill_loop}

-- The addresses that the linker gives.
pub record Symbols : Type 0 where
  pub rodata_end : ℕ
  pub data_start : ℕ
  pub data_end : ℕ
  pub bss_start : ℕ
  pub bss_end : ℕ

abbrev pub ram_start : ℕ
ram_start = 0x80000000

pub rsd_memcpy : ℕ → ℕ → ℕ → Memory → Memory
unfolding copy_loop
rsd_memcpy dest src n mem = copy_loop n 0 dest src mem

-- `(uint8_t)c` is the lowest byte.
pub rsd_memset : ℕ → ℕ → ℕ → Memory → Memory
unfolding fill_loop
rsd_memset str c n mem = fill_loop n 0 str (c % 2 ^ 8) mem

-- A `size_t` of 32 bits: the difference of two addresses wraps around.
pub size_between : ℕ → ℕ → ℕ
size_between start end = (end + 2 ^ 32 - start) % 2 ^ 32

pub load : Symbols → Memory → Memory
unfolding rsd_memcpy rsd_memset size_between
load s mem =
    let data_size = size_between s.data_start s.data_end in
    let bss_size = size_between s.bss_start s.bss_end in
    rsd_memset s.bss_start 0 bss_size (rsd_memcpy ram_start s.rodata_end data_size mem)
