-- ===== src/Serial/Copy.antt =====
-- The `memcpy` of lib.c.
use rsd_mp.Common.{ℕ, ◌+◌, ◌<◌, ◌≤◌, ◌≡◌, ◌⊎◌, arith}
use rsd_mp.Common.Memory.{Memory}
use rsd_mp.Common.Memory.Laws.{IsForwardSafe, copy_loop_inside, copy_loop_outside}
use rsd_mp.Serial.{memcpy}

-- `memcpy` copies the `n` bytes at `src` to `dest` and changes no other byte, also for areas that
-- overlap with the destination first.
pub memcpy_lem :
    (dest src n : ℕ) (mem : Memory)
    → IsForwardSafe dest src n
    → ((k : ℕ) → k < n → memcpy dest src n mem (dest + k) ≡ mem (src + k))
      × ((a : ℕ) → (a < dest) ⊎ (dest + n ≤ a) → memcpy dest src n mem a ≡ mem a)
unfolding memcpy
memcpy_lem dest src n mem safe = (
  λ k lt. copy_loop_inside n 0 dest src mem k (omega arith) (omega arith) (omega arith),
  λ a o. copy_loop_outside n 0 dest src mem a (omega arith),
)
