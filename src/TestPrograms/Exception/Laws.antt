-- ===== src/TestPrograms/Exception/Laws.antt =====
-- Exception/code.c: no counter overflows, and the output shows the random bits.
use rsd_mp.Common.{
  ℕ, zero, suc, ◌+◌, ◌*◌, ◌%◌, ◌≤◌, [], ◌∷◌, ◌++◌, Option, some, ◌==◌, if◌then◌else◌, ◌≡◌, refl,
  sym, ap, ◌∙◌, arith, append_assoc, append-nil, Bool-cases, inl, inr, ◌>>=◌,
}
use rsd_mp.Common.Text.{Chars}
use rsd_mp.Common.Int.{int_max}
use rsd_mp.Serial.{serial_out_char}
use rsd_mp.TestPrograms.Sum.{add_int-fits}
use rsd_mp.TestPrograms.Exception.{rand, Spin, spin, spin_loop, wait_loop, spinning}

-- The lowest bit of each of the next `n` numbers.
abbrev pub bits : ℕ → ℕ → Chars
bits zero y = []
bits (suc n) y = (if rand y % 2 == 0 then b'0' else b'1') ∷ bits n (rand y)

abbrev pub ones : Chars → ℕ
ones [] = 0
ones (c ∷ cs) = if c == b'1' then suc (ones cs) else ones cs

-- The state after a round with the bit `b`.
abbrev after : ℕ → Spin → Spin
after i s = record {
  y = rand s.y;
  tmp = s.tmp + (if rand s.y % 2 == 0 then 0 else 1);
  sum = s.sum + i;
  out = s.out ++ (if rand s.y % 2 == 0 then b'0' else b'1') ∷ [];
}

spin_lem :
    (i : ℕ) (s : Spin) → s.tmp + 1 ≤ int_max → s.sum + i ≤ int_max → spin i s ≡ some (after i s)
unfolding spin serial_out_char
spin_lem i s t u = elim (Bool-cases (rand s.y % 2 == 0)) [
  | inl e ↦ rw (e, add_int-fits s.tmp 0 (omega arith), add_int-fits s.sum i u) refl
  | inr e ↦ rw (e, add_int-fits s.tmp 1 t, add_int-fits s.sum i u) refl
]

-- What the loop leaves.
record IsSpun (left : ℕ) (s : Spin) (result : Option Spin) : Type 0 where
  final : Spin
  returns : result ≡ some final
  out : final.out ≡ s.out ++ bits left s.y
  tmp : final.tmp ≡ s.tmp + ones (bits left s.y)
  sum : final.sum ≤ s.sum + left * 10000

ones-cons :
    (y n t : ℕ)
    → t + (if y % 2 == 0 then 0 else 1) + n
      ≡ t + (if (if y % 2 == 0 then b'0' else b'1') == b'1' then suc n else n)
ones-cons y n t = ground arith

spin_loop-IsSpun :
    (left i : ℕ) (s : Spin)
    → i + left ≤ 10000
    → s.tmp + left ≤ 10000
    → s.sum + left * 10000 ≤ int_max
    → IsSpun left s (spin_loop left i s)
unfolding spin_loop
spin_loop-IsSpun zero i s h t u = record {
  final = s;
  returns = refl;
  out = sym (append-nil s.out);
  tmp = omega arith;
  sum = omega arith;
}
spin_loop-IsSpun (suc left) i s h t u =
    let s' = after i s in
    let one : s'.tmp ≤ s.tmp + 1 = at_most_one (rand s.y) s.tmp in
    let rest = spin_loop-IsSpun left (suc i) s' (omega arith) (omega (arith, one)) (omega arith) in
    record {
      final = rest.final;
      returns =
          ap (λ o. o >>= spin_loop left (suc i)) (spin_lem i s (omega arith) (omega arith))
          ∙ rest.returns;
      out = rest.out ∙ append_assoc s.out (_ ∷ []) (bits left (rand s.y));
      tmp = rest.tmp ∙ ones-cons (rand s.y) (ones (bits left (rand s.y))) s.tmp;
      sum = omega (arith, rest.sum);
    }
  where
    at_most_one : (y t : ℕ) → t + (if y % 2 == 0 then 0 else 1) ≤ t + 1
    at_most_one y t = ground arith

record IsWaiting (s : Spin) (result : Option Spin) : Type 0 where
  final : Spin
  returns : result ≡ some final
  out : final.out ≡ s.out
  tmp : final.tmp ≡ s.tmp

wait_loop-IsWaiting :
    (left i : ℕ) (s : Spin)
    → i + left ≤ 100
    → s.sum + left * 100 ≤ int_max
    → IsWaiting s (wait_loop left i s)
unfolding wait_loop
wait_loop-IsWaiting zero i s h u = record { final = s; returns = refl; out = refl; tmp = refl }
wait_loop-IsWaiting (suc left) i s h u =
    let rest =
      wait_loop-IsWaiting left (suc i) (record s { sum = s.sum + i }) (omega arith) (omega arith) in
    record {
      final = rest.final;
      returns =
          ap (λ o. o >>= (λ sum. wait_loop left (suc i) (record s { sum = sum })))
            (add_int-fits s.sum i (omega arith))
          ∙ rest.returns;
      out = rest.out;
      tmp = rest.tmp;
    }

-- For up to 10000 rounds, which the program has, and any first value of `y`, no `int` overflows; the
-- program prints the lowest bit of each random number, in order, and `tmp` counts those that are 1.
pub spinning-bits :
    (n y : ℕ)
    → n ≤ 10000
    → (s : Spin) × (spinning n y ≡ some s) × (s.out ≡ bits n y) × (s.tmp ≡ ones (bits n y))
unfolding spinning
spinning-bits n y h =
    let start : Spin = record { y = y; tmp = 0; sum = 0; out = [] } in
    let r = spin_loop-IsSpun n 0 start (omega arith) (omega arith) (omega arith) in
    let w = wait_loop-IsWaiting 100 0 r.final (omega arith) (omega (arith, r.sum)) in
    (
      w.final,
      ap (λ o. o >>= wait_loop 100 0) r.returns ∙ w.returns,
      w.out ∙ r.out,
      w.tmp ∙ r.tmp ∙ from_zero (ones (bits n y)),
    )
  where
    from_zero : (t : ℕ) → 0 + t ≡ t
    from_zero t = omega arith
