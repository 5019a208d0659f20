-- ===== src/RsdLoader/Laws.antt =====
-- What memory holds after `_load`.
use rsd_mp.Common.{ℕ, ◌+◌, ◌-◌, ◌^◌, ◌<◌, ◌≤◌, ◌≡◌, ◌⊎◌, arith, ◌∙◌, ap}
use rsd_mp.Common.Memory.{Memory, copy_loop, fill_loop}
use rsd_mp.Common.Memory.Laws.{
  copy_loop_inside, copy_loop_outside, fill_loop_inside, fill_loop_outside,
}
use rsd_mp.RsdLoader.{Symbols, ram_start, rsd_memcpy, rsd_memset, size_between, load}

-- The layout that the loader relies on, and that the linker has to give: the data section is linked at the start of RAM, the
-- image of the data lies in ROM, below RAM, and the two sections of RAM do not overlap.
pub record IsLinked (s : Symbols) : Type 0 where
  pub data_at_ram : s.data_start ≡ ram_start
  pub data_forward : s.data_start ≤ s.data_end
  pub bss_forward : s.bss_start ≤ s.bss_end
  pub apart : s.data_end ≤ s.bss_start
  pub image_in_rom : s.rodata_end + (s.data_end - s.data_start) ≤ ram_start
  pub in_space : s.bss_end < 2 ^ 32

size_between_lem : (a b : ℕ) → a ≤ b → b < 2 ^ 32 → size_between a b ≡ b - a
unfolding size_between
size_between_lem a b le lt = omega arith

load-eq :
    (s : Symbols) (mem : Memory)
    → IsLinked s
    → load s mem
      ≡ fill_loop
          (s.bss_end - s.bss_start)
          0
          s.bss_start
          0
          (copy_loop (s.data_end - s.data_start) 0 ram_start s.rodata_end mem)
unfolding load rsd_memcpy rsd_memset
load-eq s mem l = rw (
  size_between_lem s.data_start s.data_end l.data_forward (omega arith),
  size_between_lem s.bss_start s.bss_end l.bss_forward l.in_space,
)

module _ (s : Symbols) (mem : Memory) (l : IsLinked s) where
  load_data :
      (k : ℕ) → k < s.data_end - s.data_start → load s mem (ram_start + k) ≡ mem (s.rodata_end + k)
  load_data k lt = rw (load-eq s mem l) (
      fill_loop_outside (s.bss_end - s.bss_start) 0 s.bss_start 0 _ (ram_start + k) (omega arith)
      ∙ copy_loop_inside (s.data_end - s.data_start) 0 ram_start s.rodata_end mem k (omega arith)
          (omega arith) (omega arith))

  load_bss : (a : ℕ) → s.bss_start ≤ a → a < s.bss_end → load s mem a ≡ 0
  load_bss a ge lt =
      ap (load s mem) at_offset
      ∙ rw (load-eq s mem l) (
          fill_loop_inside (s.bss_end - s.bss_start) 0 s.bss_start 0 _ (a - s.bss_start)
            (omega arith) (omega arith))
    where
      at_offset : a ≡ s.bss_start + (a - s.bss_start)
      at_offset = omega arith

  load_rest :
      (a : ℕ)
      → (a < s.data_start) ⊎ ((s.data_end ≤ a) × (a < s.bss_start)) ⊎ (s.bss_end ≤ a)
      → load s mem a ≡ mem a
  load_rest a o = rw (load-eq s mem l) (
      fill_loop_outside (s.bss_end - s.bss_start) 0 s.bss_start 0 _ a (omega arith)
      ∙ copy_loop_outside (s.data_end - s.data_start) 0 ram_start s.rodata_end mem a (omega arith))

-- After `_load`, with the sections laid out as `IsLinked` says, byte `k` of the data section is byte
-- `k` of its image behind the read-only data, every byte of the bss section is 0, and every byte
-- outside both sections is what it was.
pub load_lem :
    (s : Symbols) (mem : Memory)
    → IsLinked s
    → ((k : ℕ)
        → k < s.data_end - s.data_start
        → load s mem (s.data_start + k) ≡ mem (s.rodata_end + k))
      × ((a : ℕ) → s.bss_start ≤ a → a < s.bss_end → load s mem a ≡ 0)
      × ((a : ℕ)
          → (a < s.data_start) ⊎ ((s.data_end ≤ a) × (a < s.bss_start)) ⊎ (s.bss_end ≤ a)
          → load s mem a ≡ mem a)
load_lem s mem l = (
  λ k lt. ap (λ (t : ℕ). load s mem (t + k)) l.data_at_ram ∙ load_data s mem l k lt,
  load_bss s mem l,
  load_rest s mem l,
)
