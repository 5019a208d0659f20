-- ===== src/Common/Memory/Laws.antt =====
-- What the copying and the filling loop leave in memory.
use Prim.Native.Nat.{ℕ, zero, suc, ◌+◌, ◌≤◌, ◌<◌}
use mathlib.Core.Path.{◌≡◌, refl, ◌∙◌}
use mathlib.Core.Logic.{◌≢◌, ◌⊎◌}
use native.Mathlib.Decide.{ℕ_discrete}
use native.Mathlib.Omega.{arith}
use rsd_mp.Common.Memory.{Memory, store, copy_loop, fill_loop}

pub store_self : (mem : Memory) (a v : ℕ) → store mem a v a ≡ v
unfolding store
store_self mem a v = ground arith

pub store_ne : (mem : Memory) (a v b : ℕ) → b ≢ a → store mem a v b ≡ mem b
unfolding store
store_ne mem a v b ne = ground arith

-- No byte of the source is overwritten before it is read: the destination starts at or before the
-- source, or behind its end.
abbrev pub IsForwardSafe : ℕ → ℕ → ℕ → Type 0
IsForwardSafe dest src n = (dest ≤ src) ⊎ (src + n ≤ dest)

-- Outside the destination nothing changes.
pub copy_loop_outside :
    (left i dest src : ℕ) (mem : Memory) (a : ℕ)
    → (a < dest + i) ⊎ (dest + i + left ≤ a)
    → copy_loop left i dest src mem a ≡ mem a
unfolding copy_loop
copy_loop_outside zero i dest src mem a o = refl
copy_loop_outside (suc left) i dest src mem a o =
    copy_loop_outside left (i + 1) dest src _ a (omega arith)
    ∙ store_ne mem (dest + i) _ a (omega arith)

pub copy_loop_inside :
    (left i dest src : ℕ) (mem : Memory) (k : ℕ)
    → IsForwardSafe dest src (i + left)
    → i ≤ k
    → k < i + left
    → copy_loop left i dest src mem (dest + k) ≡ mem (src + k)
unfolding copy_loop
copy_loop_inside zero i dest src mem k safe le lt = absurd (omega arith)
copy_loop_inside (suc left) i dest src mem k safe le lt = elim (ℕ_discrete k i) [
  | yes e ↦ rw e (
      copy_loop_outside left (i + 1) dest src _ (dest + i) (omega arith)
      ∙ store_self mem (dest + i) _)
  | no ne ↦
      copy_loop_inside left (i + 1) dest src _ k (omega arith) (omega arith) (omega arith)
      ∙ store_ne mem (dest + i) _ (src + k) (omega arith)
]

pub fill_loop_outside :
    (left i str c : ℕ) (mem : Memory) (a : ℕ)
    → (a < str + i) ⊎ (str + i + left ≤ a)
    → fill_loop left i str c mem a ≡ mem a
unfolding fill_loop
fill_loop_outside zero i str c mem a o = refl
fill_loop_outside (suc left) i str c mem a o =
    fill_loop_outside left (i + 1) str c _ a (omega arith)
    ∙ store_ne mem (str + i) c a (omega arith)

pub fill_loop_inside :
    (left i str c : ℕ) (mem : Memory) (k : ℕ)
    → i ≤ k
    → k < i + left
    → fill_loop left i str c mem (str + k) ≡ c
unfolding fill_loop
fill_loop_inside zero i str c mem k le lt = absurd (omega arith)
fill_loop_inside (suc left) i str c mem k le lt = elim (ℕ_discrete k i) [
  | yes e ↦
      rw e (
        fill_loop_outside left (i + 1) str c _ (str + i) (omega arith) ∙ store_self mem (str + i) c)
  | no ne ↦ fill_loop_inside left (i + 1) str c _ k (omega arith) (omega arith)
]
