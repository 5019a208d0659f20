-- ===== src/TestBench/Registers.antt =====
-- TestMain.cpp, `GetCommittedRegisterValue`: the values of the logical registers after the operations
-- that are committed in this cycle.
pub mod Laws
use rsd_mp.Common.{
  ℕ, zero, suc, ◌+◌, List, [], ◌∷◌, ◌++◌, Bool, Option, none, some, if◌then◌else◌, get_elem?, ◌>>=◌,
}
use rsd_mp.Common.Memory.{Memory, store}

-- BasicTypes.sv.
abbrev pub lscalar_num : ℕ
lscalar_num = 32

abbrev pub lscalar_fp_num : ℕ
lscalar_fp_num = 32

abbrev pub lreg_num : ℕ
lreg_num = lscalar_num + lscalar_fp_num

-- What the function reads of the core: the retirement RMT, the active list, whose entries are packed
-- structs, the two register files, and the members of an entry that the generated accessors give.
pub record Core : Type 0 where
  pub rmt : Memory
  pub head_ptr : ℕ
  pub active_list : List ℕ
  pub phy_reg : Memory
  pub phy_fp_reg : Memory
  pub write_reg : ℕ → Bool
  pub log_dst_reg_num : ℕ → ℕ
  pub phy_dst_reg_num : ℕ → ℕ

-- The loop that copies the RMT, from register `i` on.
unfoldable pub copy_rmt : ℕ → ℕ → Memory → Memory → Memory
copy_rmt zero i rmt phy_reg_num = phy_reg_num
copy_rmt (suc left) i rmt phy_reg_num = copy_rmt left (suc i) rmt (store phy_reg_num i (rmt i))

-- The loop over the committed operations from entry `ptr` on. `alHeadPtr++` does not go back to the
-- first entry behind the last one; a read behind the last entry is `none`.
unfoldable pub update_rmt : Core → ℕ → ℕ → Memory → Option Memory
update_rmt c zero ptr phy_reg_num = some phy_reg_num
update_rmt c (suc left) ptr phy_reg_num = elim (get_elem? c.active_list ptr) [
  | none ↦ none
  | some entry ↦ update_rmt c left (suc ptr) (
      if c.write_reg entry
      then store phy_reg_num (c.log_dst_reg_num entry) (c.phy_dst_reg_num entry)
      else phy_reg_num)
]

-- A loop that reads a register file, from logical register `i` on.
unfoldable pub read_registers : ℕ → ℕ → Memory → Memory → List ℕ
read_registers zero i file phy_reg_num = []
read_registers (suc left) i file phy_reg_num =
    file (phy_reg_num i) ∷ read_registers left (suc i) file phy_reg_num

-- `garbage` is what the local array holds at first. The result is the array `regData`.
unfoldable pub get_committed_register_value : Core → ℕ → Memory → Option (List ℕ)
unfolding update_rmt read_registers copy_rmt
get_committed_register_value c commit_num garbage = do
  phy_reg_num ← update_rmt c commit_num c.head_ptr (copy_rmt lreg_num 0 c.rmt garbage)
  some (
      read_registers lscalar_num 0 c.phy_reg phy_reg_num
      ++ read_registers lscalar_fp_num lscalar_num c.phy_fp_reg phy_reg_num)
