-- ===== src/Common/Memory.antt =====
-- Byte memories as functions, and the two loops over them that the C sources share: the copying
-- loop of `memcpy` (Processor/Src/Verification/TestCode/C/lib.c) and of `_rsd_memcpy`
-- (Processor/Src/Verification/TestCode/rsd-loader.c), and the filling loop of `_rsd_memset`.
pub mod Laws
use rsd_mp.Common.Tests.{◌==◌, if◌then◌else◌}
use Prim.Native.Nat.{ℕ, zero, suc, ◌+◌}

abbrev pub Memory : Type 0
Memory = ℕ → ℕ

unfoldable pub store : Memory → ℕ → ℕ → Memory
store mem a v b = if b == a then v else mem b

-- `dest[i] = src[i]` from round `i` on, with `left` rounds left; `dest` and `src` are addresses in
-- one memory.
unfoldable pub copy_loop : ℕ → ℕ → ℕ → ℕ → Memory → Memory
unfolding store
copy_loop zero i dest src mem = mem
copy_loop (suc left) i dest src mem =
    copy_loop left (i + 1) dest src (store mem (dest + i) (mem (src + i)))

-- `str[i] = c` from round `i` on.
unfoldable pub fill_loop : ℕ → ℕ → ℕ → ℕ → Memory → Memory
unfolding store
fill_loop zero i str c mem = mem
fill_loop (suc left) i str c mem = fill_loop left (i + 1) str c (store mem (str + i) c)
