-- ===== src/TestBench/Registers/Laws.antt =====
-- TestMain.cpp, `GetCommittedRegisterValue`: which physical registers are read.
use rsd_mp.Common.{
  ℕ, zero, suc, ◌+◌, ◌<◌, ◌≤◌, List, [], ◌∷◌, ◌++◌, Bool, true, false, Option, none, some,
  if◌then◌else◌, get_elem?, take, drop, length, ◌==◌, ◌≡◌, refl, sym, ap, ◌∙◌, arith, ◌⊎◌, inl, inr,
  ==_self, ne→==, append-nil, Option-cases, drop-get_elem?, get_elem?-append_ge, get_elem?-some,
  subst,
}
use rsd_mp.Common.Memory.{Memory, store}
use rsd_mp.Common.Memory.Laws.{store_self, store_ne}
use native.Mathlib.Decide.{ℕ_discrete}
use rsd_mp.TestBench.Registers.{
  Core, copy_rmt, update_rmt, read_registers, get_committed_register_value, lreg_num,
}

-- The last of the operations that writes logical register `i`.
abbrev pub last_writer : Core → List ℕ → ℕ → Option ℕ
last_writer c [] i = none
last_writer c (e ∷ es) i = elim (last_writer c es i) [
  | some x ↦ some x
  | none ↦ if c.write_reg e then (if c.log_dst_reg_num e == i then some e else none) else none
]

abbrev pub mapped : Core → Option ℕ → ℕ → ℕ
mapped c none old = old
mapped c (some e) old = c.phy_dst_reg_num e

copy_rmt-done :
    (left i : ℕ) (rmt p : Memory) (a : ℕ) → (a < i) ⊎ (i + left ≤ a) → copy_rmt left i rmt p a ≡ p a
unfolding copy_rmt
copy_rmt-done zero i rmt p a h = refl
copy_rmt-done (suc left) i rmt p a h =
    copy_rmt-done left (suc i) rmt _ a (omega arith) ∙ store_ne p i (rmt i) a (omega arith)

copy_rmt_lem :
    (left i : ℕ) (rmt p : Memory) (a : ℕ) → i ≤ a → a < i + left → copy_rmt left i rmt p a ≡ rmt a
unfolding copy_rmt
copy_rmt_lem zero i rmt p a le lt = absurd (omega arith)
copy_rmt_lem (suc left) i rmt p a le lt = elim (ℕ_discrete a i) [
  | yes e ↦ rw e (copy_rmt-done left (suc i) rmt _ i (omega arith) ∙ store_self p i (rmt i))
  | no ne ↦ copy_rmt_lem left (suc i) rmt _ a (omega arith) (omega arith)
]

-- One operation, and the ones after it.
one_write_by :
    (c : Core) (e : ℕ) (p : Memory) (i : ℕ) (w : Bool)
    → (if w then store p (c.log_dst_reg_num e) (c.phy_dst_reg_num e) else p) i
      ≡ mapped c (if w then (if c.log_dst_reg_num e == i then some e else none) else none) (p i)
one_write_by c e p i false = refl
one_write_by c e p i true = elim (ℕ_discrete (c.log_dst_reg_num e) i) [
  | yes same ↦ rw (sym same) (
      rw (==_self (c.log_dst_reg_num e)) (store_self p (c.log_dst_reg_num e) (c.phy_dst_reg_num e)))
  | no other ↦
      rw (ne→== (c.log_dst_reg_num e) i other)
        (store_ne p (c.log_dst_reg_num e) (c.phy_dst_reg_num e) i (λ q. other (sym q)))
]

one_write :
    (c : Core) (e : ℕ) (p : Memory) (i : ℕ) (later : Option ℕ)
    → mapped c later
        ((if c.write_reg e then store p (c.log_dst_reg_num e) (c.phy_dst_reg_num e) else p) i)
      ≡ mapped c
          (elim later [
            | some x ↦ some x
            | none ↦
                if c.write_reg e then (if c.log_dst_reg_num e == i then some e else none) else none
          ])
          (p i)
one_write c e p i (some x) = refl
one_write c e p i none = one_write_by c e p i (c.write_reg e)

record Updated (c : Core) (left ptr : ℕ) (p : Memory) (result : Option Memory) : Type 0 where
  out : Memory
  returns : result ≡ some out
  maps : (i : ℕ) → out i ≡ mapped c (last_writer c (take left (drop ptr c.active_list)) i) (p i)

update_rmt_step :
    (c : Core) (left ptr : ℕ) (p : Memory) (e : ℕ)
    → get_elem? c.active_list ptr ≡ some e
    → update_rmt c (suc left) ptr p
      ≡ update_rmt c left
          (suc ptr)
          (if c.write_reg e then store p (c.log_dst_reg_num e) (c.phy_dst_reg_num e) else p)
unfolding update_rmt
update_rmt_step c left ptr p e at = rw (at, update_rmt)

update_rmt-Updated :
    (c : Core) (left ptr : ℕ) (p : Memory)
    → ptr + left ≤ length c.active_list
    → Updated c left ptr p (update_rmt c left ptr p)
unfolding update_rmt
update_rmt-Updated c zero ptr p h = record { out = p; returns = refl; maps = λ i. refl }
update_rmt-Updated c (suc left) ptr p h =
    let (e, at) = get_elem?-some c.active_list ptr (omega arith) in
    let p' = if c.write_reg e then store p (c.log_dst_reg_num e) (c.phy_dst_reg_num e) else p in
    let rest = update_rmt-Updated c left (suc ptr) p' (omega arith) in
    record {
      out = rest.out;
      returns = update_rmt_step c left ptr p e at ∙ rest.returns;
      maps = λ i.
          rest.maps i
          ∙ one_write c e p i _
          ∙ sym (
              ap (λ es. mapped c (last_writer c (take (suc left) es) i) (p i))
                (drop-get_elem? c.active_list ptr e at));
    }

length-read_registers :
    (left i : ℕ) (file p : Memory) → length (read_registers left i file p) ≡ left
unfolding read_registers
length-read_registers zero i file p = refl
length-read_registers (suc left) i file p = ap suc (length-read_registers left (suc i) file p)

read_registers_lem :
    (left i : ℕ) (file p : Memory) (k : ℕ) (rest : List ℕ)
    → k < left
    → get_elem? (read_registers left i file p ++ rest) k ≡ some (file (p (i + k)))
unfolding read_registers
read_registers_lem zero i file p k rest lt = absurd (omega arith)
read_registers_lem (suc left) i file p zero rest lt =
    let e : i ≡ i + 0 = omega arith in ap (λ t. some (file (p t))) e
read_registers_lem (suc left) i file p (suc k) rest lt =
    let e : suc i + k ≡ i + suc k = omega arith in
    read_registers_lem left (suc i) file p k rest (omega arith) ∙ ap (λ t. some (file (p t))) e

two_files :
    (m n : ℕ) (f g p : Memory) (i : ℕ)
    → i < n
    → get_elem? (read_registers m 0 f p ++ read_registers n m g p) (m + i) ≡ some (g (p (m + i)))
two_files m n f g p i lt =
    subst
      (λ (t : ℕ).
        get_elem? (read_registers m 0 f p ++ read_registers n m g p) (t + i)
        ≡ get_elem? (read_registers n m g p) i)
      (length-read_registers m 0 f p)
      (get_elem?-append_ge (read_registers m 0 f p) (read_registers n m g p) i)
    ∙ ap (λ l. get_elem? l i) (sym (append-nil (read_registers n m g p)))
    ∙ read_registers_lem n m g p i [] lt

first_file :
    (m : ℕ) (f p : Memory) (i : ℕ) (rest : List ℕ)
    → i < m
    → get_elem? (read_registers m 0 f p ++ rest) i ≡ some (f (p i))
first_file m f p i rest lt =
    let e : 0 + i ≡ i = omega arith in
    read_registers_lem m 0 f p i rest lt ∙ ap (λ t. some (f (p t))) e

-- The physical register of logical register `i` after `n` operations.
abbrev pub register_after : Core → ℕ → ℕ → ℕ
register_after c n i = mapped c (last_writer c (take n (drop c.head_ptr c.active_list)) i) (c.rmt i)

-- If the committed operations lie between the head of the active list and its last entry, the
-- function returns, and it gives each of the 64 logical registers the value of the physical register
-- that the last of these operations has assigned to it, or of the one of the retirement RMT if none
-- of them writes it: the first 32 from the integer register file, the others from the
-- floating-point one.
pub get_committed_register_value_lem :
    (c : Core) (n : ℕ) (garbage : Memory)
    → c.head_ptr + n ≤ length c.active_list
    → (regs : List ℕ) × (get_committed_register_value c n garbage ≡ some regs)
      × ((i : ℕ) → i < 32 → get_elem? regs i ≡ some (c.phy_reg (register_after c n i)))
      × ((i : ℕ)
          → i < 32
          → get_elem? regs (32 + i) ≡ some (c.phy_fp_reg (register_after c n (32 + i))))
unfolding get_committed_register_value
get_committed_register_value_lem c n garbage h = (
  read_registers 32 0 c.phy_reg p ++ read_registers 32 32 c.phy_fp_reg p,
  rw u.returns refl,
  λ i lt.
      first_file 32 c.phy_reg p i (read_registers 32 32 c.phy_fp_reg p) lt
      ∙ ap (λ t. some (c.phy_reg t)) (at i (omega arith)),
  λ i lt.
      two_files 32 32 c.phy_reg c.phy_fp_reg p i lt
      ∙ ap (λ t. some (c.phy_fp_reg t)) (at (32 + i) (omega arith)),
)
  where
    p0 : Memory
    p0 = copy_rmt lreg_num 0 c.rmt garbage

    u : Updated c n c.head_ptr p0 (update_rmt c n c.head_ptr p0)
    u = update_rmt-Updated c n c.head_ptr p0 h

    p : Memory
    p = u.out

    at : (i : ℕ) → i < 64 → p i ≡ register_after c n i
    at i lt =
        u.maps i
        ∙ ap (mapped c (last_writer c (take n (drop c.head_ptr c.active_list)) i))
            (copy_rmt_lem lreg_num 0 c.rmt garbage i (omega arith) (omega arith))

get_elem?-lt : (xs : List ℕ) (n x : ℕ) → get_elem? xs n ≡ some x → n < length xs
get_elem?-lt [] n x h = cc
get_elem?-lt (y ∷ xs) zero x h = omega arith
get_elem?-lt (y ∷ xs) (suc n) x h = omega (arith, get_elem?-lt xs n x h)

update_rmt-none :
    (c : Core) (left ptr : ℕ) (p : Memory)
    → ptr ≤ length c.active_list
    → length c.active_list < ptr + left
    → update_rmt c left ptr p ≡ none
unfolding update_rmt
update_rmt-none c zero ptr p le lt = absurd (omega arith)
update_rmt-none c (suc left) ptr p le lt = elim (Option-cases (get_elem? c.active_list ptr)) [
  | inl e ↦ rw (e, update_rmt)
  | inr (x, e) ↦
      update_rmt_step c left ptr p x e
      ∙ update_rmt-none c left (suc ptr) _ (get_elem?-lt c.active_list ptr x e) (omega arith)
]

-- The active list is a ring in the core, but the function does not go back to its first entry: if the
-- committed operations reach behind the last entry, it reads outside the array.
pub get_committed_register_value-none :
    (c : Core) (n : ℕ) (garbage : Memory)
    → c.head_ptr ≤ length c.active_list
    → length c.active_list < c.head_ptr + n
    → get_committed_register_value c n garbage ≡ none
unfolding get_committed_register_value
get_committed_register_value-none c n garbage le lt =
    rw (update_rmt-none c n c.head_ptr (copy_rmt lreg_num 0 c.rmt garbage) le lt) refl
