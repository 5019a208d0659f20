-- ===== src/TestPrograms/DCache/Laws.antt =====
-- DCache/code.c: no access is outside the array, and the sum is the one of what was stored.
use rsd_mp.Common.{
  ℕ, zero, suc, ◌+◌, ◌-◌, ◌*◌, ◌%◌, ◌^◌, ◌<◌, ◌≤◌, Option, some, ◌≡◌, ◌≢◌, refl, ap, ◌∙◌, arith,
  lt→ltb, ◌⊎◌, inl, inr, ◌>>=◌,
}
use rsd_mp.Common.Memory.{Memory, store}
use rsd_mp.Common.Memory.Laws.{store_self, store_ne}
use native.Mathlib.Decide.{ℕ_discrete}
use rsd_mp.TestPrograms.DCache.{
  way_num, put, get, write_ways, write_lines, sum_ways, sum_lines, test_lines, test,
}

put-inside :
    (at v : ℕ) (array : Memory) → at < 8192 → put at v array ≡ some (store array at (v % 256))
unfolding put
put-inside at v array h = rw (lt→ltb at 8192 h) refl

get-inside : (at : ℕ) (array : Memory) → at < 8192 → get at array ≡ some (array at)
unfolding get
get-inside at array h = rw (lt→ltb at 8192 h) refl

-- The stores to the ways from `way` on, of the line at `i`.
record IsWritten (left way i : ℕ) (array : Memory) (result : Option Memory) : Type 0 where
  out : Memory
  returns : result ≡ some out
  cells : (w : ℕ) → way ≤ w → w < way + left → out (w * 512 + i) ≡ w + 1
  others : (a : ℕ) → (a % 512 ≢ i) ⊎ (a < way * 512) → out a ≡ array a

write_ways-IsWritten :
    (left way i : ℕ) (array : Memory)
    → way + left ≤ 16
    → i < 512
    → IsWritten left way i array (write_ways left way i array)
unfolding write_ways
write_ways-IsWritten zero way i array h lt = record {
  out = array;
  returns = refl;
  cells = λ w le less. absurd (omega arith);
  others = λ a o. refl;
}
write_ways-IsWritten (suc left) way i array h lt =
    let at : ℕ = way * 512 + i in
    let v : ℕ = (way + 1) % 256 in
    let rest = write_ways-IsWritten left (suc way) i (store array at v) (omega arith) lt in
    record {
      out = rest.out;
      returns =
          ap (λ o. o >>= write_ways left (suc way) i) (put-inside at (way + 1) array (omega arith))
          ∙ rest.returns;
      cells = λ w le less. elim (ℕ_discrete w way) [
        | yes e ↦ rw e (rest.others at (inr (omega arith)) ∙ store_self array at v ∙ omega arith)
        | no ne ↦ rest.cells w (omega arith) (omega arith)
      ];
      others = λ a o. rest.others a (weaker a o) ∙ store_ne array at v a (apart a o);
    }
  where
    weaker : (a : ℕ) → (a % 512 ≢ i) ⊎ (a < way * 512) → (a % 512 ≢ i) ⊎ (a < suc way * 512)
    weaker a (inl ne) = inl ne
    weaker a (inr less) = inr (omega arith)

    apart : (a : ℕ) → (a % 512 ≢ i) ⊎ (a < way * 512) → a ≢ way * 512 + i
    apart a (inl ne) = λ e. ne (omega arith)
    apart a (inr less) = λ e. omega arith

-- The stores to the lines from `i` on.
record IsFilled (ways left i : ℕ) (array : Memory) (result : Option Memory) : Type 0 where
  out : Memory
  returns : result ≡ some out
  cells : (w k : ℕ) → w < ways → k < left → out (w * 512 + (i + 8 * k)) ≡ w + 1
  others : (a : ℕ) → a % 512 < i → out a ≡ array a

write_lines-IsFilled :
    (ways left i : ℕ) (array : Memory)
    → ways ≤ 16
    → i + 8 * left ≤ 512
    → IsFilled ways left i array (write_lines ways left i array)
unfolding write_lines
write_lines-IsFilled ways zero i array h lt = record {
  out = array;
  returns = refl;
  cells = λ w k less no. absurd (omega arith);
  others = λ a o. refl;
}
write_lines-IsFilled ways (suc left) i array h lt =
    let line = write_ways-IsWritten ways 0 i array (omega arith) (omega arith) in
    let rest = write_lines-IsFilled ways left (i + 8) line.out h (omega arith) in
    record {
      out = rest.out;
      returns = ap (λ o. o >>= write_lines ways left (i + 8)) line.returns ∙ rest.returns;
      cells = λ w k less in_range. elim (ℕ_discrete k 0) [
        | yes e ↦
            ap rest.out (ap (λ t. w * 512 + (i + 8 * t)) e ∙ omega arith)
            ∙ rest.others (w * 512 + i) (omega arith)
            ∙ line.cells w (omega arith) (omega arith)
        | no ne ↦ ap rest.out (shifted w k ne) ∙ rest.cells w (k - 1) less (omega arith)
      ];
      others = λ a o. rest.others a (omega arith) ∙ line.others a (inl (λ e. omega arith));
    }
  where
    shifted : (w k : ℕ) → k ≢ 0 → w * 512 + (i + 8 * k) ≡ w * 512 + (i + 8 + 8 * (k - 1))
    shifted w k ne = omega arith

-- 1 + … + n.
abbrev pub triangle : ℕ → ℕ
triangle zero = 0
triangle (suc n) = suc n + triangle n

abbrev ways_sum : ℕ → ℕ → ℕ
ways_sum zero way = 0
ways_sum (suc left) way = way + 1 + ways_sum left (suc way)

ways_sum-triangle : (left way : ℕ) → ways_sum left way + triangle way ≡ triangle (left + way)
ways_sum-triangle zero way = let e : way ≡ 0 + way = omega arith in omega (arith, ap triangle e)
ways_sum-triangle (suc left) way =
    omega (arith, ways_sum-triangle left (suc way), ap triangle (next left way))
  where
    next : (left way : ℕ) → left + suc way ≡ suc left + way
    next left way = omega arith

-- The sum of some lines.
abbrev pub lines_sum : ℕ → ℕ → ℕ
lines_sum ways zero = 0
lines_sum ways (suc left) = triangle ways + lines_sum ways left

sum_ways_lem :
    (left way i : ℕ) (array : Memory) (sum : ℕ)
    → way + left ≤ 16
    → i < 512
    → ((w : ℕ) → w < way + left → array (w * 512 + i) ≡ w + 1)
    → sum < 2 ^ 32
    → sum_ways left way i array sum ≡ some ((sum + ways_sum left way) % 2 ^ 32)
unfolding sum_ways
sum_ways_lem zero way i array sum h lt cells small = ap some (omega arith)
sum_ways_lem (suc left) way i array sum h lt cells small =
    ap (λ o. o >>= (λ v. sum_ways left (suc way) i array ((sum + v) % 2 ^ 32)))
      (get-inside (way * 512 + i) array (omega arith))
    ∙ ap (λ (v : ℕ). sum_ways left (suc way) i array ((sum + v) % 2 ^ 32)) (cells way (omega arith))
    ∙ sum_ways_lem left (suc way) i array ((sum + (way + 1)) % 2 ^ 32) (omega arith) lt
        (λ w less. cells w (omega arith)) (omega arith)
    ∙ ap some (omega arith)

sum_lines_lem :
    (ways left i : ℕ) (array : Memory) (sum : ℕ)
    → ways ≤ 16
    → i + 8 * left ≤ 512
    → ((w k : ℕ) → w < ways → k < left → array (w * 512 + (i + 8 * k)) ≡ w + 1)
    → sum < 2 ^ 32
    → sum_lines ways left i array sum ≡ some ((sum + lines_sum ways left) % 2 ^ 32)
unfolding sum_lines
sum_lines_lem ways zero i array sum h lt cells small = ap some (omega arith)
sum_lines_lem ways (suc left) i array sum h lt cells small =
    ap (λ o. o >>= sum_lines ways left (i + 8) array)
      (sum_ways_lem ways 0 i array sum (omega arith) (omega arith)
        (λ w less. ap array (here w) ∙ cells w 0 (omega arith) (omega arith)) small)
    ∙ sum_lines_lem ways left (i + 8) array ((sum + ways_sum ways 0) % 2 ^ 32) h (omega arith)
        (λ w k less in_range. ap array (there w k) ∙ cells w (suc k) less (omega arith))
        (omega arith)
    ∙ ap some (omega (arith, ways_sum-triangle ways 0, ap triangle (all ways)))
  where
    here : (w : ℕ) → w * 512 + i ≡ w * 512 + (i + 8 * 0)
    here w = omega arith

    there : (w k : ℕ) → w * 512 + (i + 8 + 8 * k) ≡ w * 512 + (i + 8 * suc k)
    there w k = omega arith

    all : (ways : ℕ) → ways + 0 ≡ ways
    all ways = omega arith

-- Whatever the array holds at first, for up to 16 ways and 64 lines every access is inside the array,
-- and the result is the sum of what was stored, 1 to the number of ways in each line; for the 8 ways
-- and 2 lines of the program, this is 72.
pub test_lines-lines_sum :
    (ways lines : ℕ) (array : Memory)
    → ways ≤ 16
    → lines ≤ 64
    → (test_lines ways lines array ≡ some (lines_sum ways lines % 2 ^ 32)) × (test array ≡ some 72)
test_lines-lines_sum ways lines array h le =
    (returns ways lines h le, unfold test in returns way_num 2 (omega arith) (omega arith))
  where
    returns :
        (ways lines : ℕ)
        → ways ≤ 16
        → lines ≤ 64
        → test_lines ways lines array ≡ some (lines_sum ways lines % 2 ^ 32)
    returns ways lines h le =
        unfold test_lines in
        let w = write_lines-IsFilled ways lines 0 array h (omega arith) in
        let r = sum_lines_lem ways lines 0 w.out 0 h (omega arith) w.cells (omega arith) in
        rw (w.returns, r) (ap some (omega arith))
