-- ===== src/TestPrograms/Fibonacci.antt =====
-- Processor/Src/Verification/TestCode/C/Fibonacci/code.c.
use rsd_mp.Common.{
  ℕ, zero, suc, ◌+◌, ◌≤◌, ◌<◌, Option, none, some, leb, if◌then◌else◌, ◌≡◌, refl, ap, ◌∙◌, arith,
  inl, inr, ◌>>=◌, le→leb, le_false, ◌-◌, subst, sym,
}
use rsd_mp.TestPrograms.Sum.{add_int, add_int-fits, add_int-overflow, le-or-lt}
use rsd_mp.Common.Int.{ℤ, pos, negsuc, int_max}

-- The loop with `left` rounds left, and `return z`; `none` for `z` is its value before the first round.
unfoldable pub fibonacci_loop : ℕ → ℕ → ℕ → Option ℕ → Option ℕ
unfolding add_int
fibonacci_loop zero x y z = z
fibonacci_loop (suc left) x y z = add_int x y >>= (λ s. fibonacci_loop left s x (some s))

-- `none` is undefined: an overflow, or the value of `z` before it has one.
unfoldable pub fibonacci : ℤ → Option ℕ
unfolding fibonacci_loop
fibonacci (pos loop) = fibonacci_loop loop 1 1 none
fibonacci (negsuc n) = none

unfoldable pub fibonacci_main : Option ℕ
unfolding fibonacci
fibonacci_main = fibonacci (pos 20) >>= (λ ret. add_int ret 1)

-- The number of Fibonacci.
pub fib : ℕ → ℕ
fib zero = 0
fib (suc zero) = 1
fib (suc (suc n)) = fib (suc n) + fib n

-- A number that has to be an `int`.
abbrev pub bounded : ℕ → Option ℕ
bounded v = if leb v int_max then some v else none

le-fib : (n : ℕ) → fib n ≤ fib (suc n)
unfolding fib
le-fib zero = omega arith
le-fib (suc n) = omega arith

fib-add : (m n : ℕ) → fib n ≤ fib (n + m)
fib-add zero n = let e : n ≡ n + 0 = omega arith in subst (λ t. fib n ≤ fib t) e (omega arith)
fib-add (suc m) n =
    let e : suc (n + m) ≡ n + suc m = omega arith in
    subst (λ t. fib n ≤ fib t) e (omega (arith, fib-add m n, le-fib (n + m)))

fib-le : (m n : ℕ) → m ≤ n → fib m ≤ fib n
fib-le m n h =
    let e : m + (n - m) ≡ n = omega arith in subst (λ t. fib m ≤ fib t) e (fib-add (n - m) m)

fibonacci_loop-overflow :
    (left k t : ℕ) (z : Option ℕ)
    → t ≡ suc (suc (suc k)) + left
    → int_max < fib (suc (suc k)) + fib (suc k)
    → fibonacci_loop (suc left) (fib (suc (suc k))) (fib (suc k)) z ≡ bounded (fib t)
unfolding fibonacci_loop fib
fibonacci_loop-overflow left k t z e h =
    let over : int_max < fib t = omega (arith, fib-le (suc (suc (suc k))) t (omega arith)) in
    ap (λ o. o >>= (λ s. fibonacci_loop left s (fib (suc (suc k))) (some s)))
      (add_int-overflow (fib (suc (suc k))) (fib (suc k)) h)
    ∙ sym (rw (le_false (fib t) int_max over) refl)

-- A round without an overflow.
fibonacci_loop-fits :
    (left k : ℕ) (z : Option ℕ)
    → fib (suc (suc k)) + fib (suc k) ≤ int_max
    → fibonacci_loop (suc left) (fib (suc (suc k))) (fib (suc k)) z
      ≡ fibonacci_loop left
          (fib (suc (suc (suc k))))
          (fib (suc (suc k)))
          (some (fib (suc (suc (suc k)))))
unfolding fibonacci_loop fib
fibonacci_loop-fits left k z fits =
    ap (λ o. o >>= (λ s. fibonacci_loop left s (fib (suc (suc k))) (some s)))
      (add_int-fits (fib (suc (suc k))) (fib (suc k)) fits)

fibonacci_loop_end :
    (k t : ℕ) (x y : ℕ)
    → t ≡ suc (suc (suc k))
    → fib (suc (suc k)) + fib (suc k) ≤ int_max
    → fibonacci_loop zero x y (some (fib (suc (suc (suc k))))) ≡ bounded (fib t)
unfolding fibonacci_loop
fibonacci_loop_end k t x y e fits =
    let small : fib (suc (suc (suc k))) ≤ int_max = unfold fib in fits in
    sym (ap (λ n. bounded (fib n)) e ∙ rw (le→leb (fib (suc (suc (suc k)))) int_max small) refl)

fibonacci_loop-fib :
    (left k t : ℕ) (z : Option ℕ)
    → t ≡ suc (suc (suc k)) + left
    → fibonacci_loop (suc left) (fib (suc (suc k))) (fib (suc k)) z ≡ bounded (fib t)
fibonacci_loop-fib zero k t z e = elim (le-or-lt (fib (suc (suc k)) + fib (suc k)) int_max) [
  | inr over ↦ fibonacci_loop-overflow zero k t z e over
  | inl fits ↦ fibonacci_loop-fits zero k z fits ∙ fibonacci_loop_end k t _ _ (omega arith) fits
]
fibonacci_loop-fib (suc left) k t z e = elim (le-or-lt (fib (suc (suc k)) + fib (suc k)) int_max) [
  | inr over ↦ fibonacci_loop-overflow (suc left) k t z e over
  | inl fits ↦
      fibonacci_loop-fits (suc left) k z fits ∙ fibonacci_loop-fib left (suc k) t _ (omega arith)
]

-- What the program means to compute.
abbrev pub number_behind : ℤ → Option ℕ
number_behind (pos zero) = none
number_behind (pos (suc n)) = bounded (fib (n + 3))
number_behind (negsuc n) = none

-- For `n` rounds with `n` above 0, the result is number `n + 2` of Fibonacci if that is an `int`, and
-- undefined otherwise; without a round it is undefined.
pub fibonacci-fib : (v : ℤ) → fibonacci v ≡ number_behind v
unfolding fibonacci
fibonacci-fib (pos zero) = unfold fibonacci_loop in refl
fibonacci-fib (pos (suc n)) = unfold fib in fibonacci_loop-fib n 0 (n + 3) none (omega arith)
fibonacci-fib (negsuc n) = refl
