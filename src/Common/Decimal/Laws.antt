-- ===== src/Common/Decimal/Laws.antt =====
-- The decimal text of a number reads back as the number.
use Prim.Native.Nat.{ℕ, zero, suc, ◌+◌, ◌-◌, ◌*◌, ◌/◌, ◌%◌, ◌<◌, ◌≤◌}
use mathlib.Core.Bool.{true, false}
use mathlib.Core.Path.{◌≡◌, refl, ap, ◌∙◌, sym}
use mathlib.Core.Logic.{inl, inr}
use mathlib.Core.List.{[], ◌∷◌}
use mathlib.Core.Option.{some}
use native.Mathlib.Omega.{arith}
use rsd_mp.Common.Tests.{◌==◌, Bool-cases}
use rsd_mp.Common.Text.{Chars, skip_space, is_space}
use rsd_mp.Common.Int.{pos, int_max}
use rsd_mp.Common.Format.{digit_char, digits_loop, unsigned}
use rsd_mp.Common.Decimal.{is_digit, scan_dec, unsigned?, signed?, in_int, atoi, stoi}

pub digit_char-digit :
    (d : ℕ) → d < 10 → (is_digit (digit_char d) ≡ true) × (digit_char d - b'0' ≡ d)
unfolding digit_char is_digit
digit_char-digit d lt = ground arith

scan_dec-digits_loop :
    (fuel n : ℕ) (out : Chars) → n < fuel → scan_dec (digits_loop 10 fuel n out) 0 ≡ scan_dec out n
unfolding digits_loop
scan_dec-digits_loop zero n out lt = absurd (omega arith)
scan_dec-digits_loop (suc fuel) n out lt =
    let (is, v) = digit_char-digit (n % 10) (omega arith) in
    let first : (acc : ℕ)
        → scan_dec (digit_char (n % 10) ∷ out) acc ≡ scan_dec out (acc * 10 + n % 10) =
      λ acc. step (digit_char (n % 10)) out acc is ∙ ap (λ d. scan_dec out (acc * 10 + d)) v in
    elim (Bool-cases (n / 10 == 0)) [
      | inl e ↦ let z : 0 * 10 + n % 10 ≡ n = ground arith in rw e (first 0 ∙ ap (scan_dec out) z)
      | inr e ↦
          let z : n / 10 * 10 + n % 10 ≡ n = omega arith in
          rw e (
            scan_dec-digits_loop fuel (n / 10) (digit_char (n % 10) ∷ out) (ground arith)
            ∙ first (n / 10)
            ∙ ap (scan_dec out) z)
    ]
  where
    step :
        (c : ℕ) (cs : Chars) (acc : ℕ)
        → is_digit c ≡ true
        → scan_dec (c ∷ cs) acc ≡ scan_dec cs (acc * 10 + (c - b'0'))
    step c cs acc h = unfold scan_dec in rw h refl

-- The text starts with a digit.
pub first_digit :
    (fuel n : ℕ) (out : Chars)
    → n < fuel
    → (c : ℕ) × (cs : Chars) × (digits_loop 10 fuel n out ≡ c ∷ cs) × (is_digit c ≡ true)
unfolding digits_loop
first_digit zero n out lt = absurd (omega arith)
first_digit (suc fuel) n out lt = elim (Bool-cases (n / 10 == 0)) [
  | inl e ↦ (digit_char (n % 10), out, rw e refl, (digit_char-digit (n % 10) (omega arith)).0)
  | inr e ↦
      let (c, cs, p, d) = first_digit fuel (n / 10) (digit_char (n % 10) ∷ out) (ground arith) in
      (c, cs, rw e p, d)
]

digit_no_space : (c : ℕ) → is_digit c ≡ true → is_space c ≡ false
unfolding is_digit is_space
digit_no_space c h = ground arith

digit_no_minus : (c : ℕ) → is_digit c ≡ true → (c == b'-') ≡ false
unfolding is_digit
digit_no_minus c h = ground arith

digit_no_plus : (c : ℕ) → is_digit c ≡ true → (c == b'+') ≡ false
unfolding is_digit
digit_no_plus c h = ground arith

unsigned?-digit :
    (c : ℕ) (cs : Chars) → is_digit c ≡ true → unsigned? (c ∷ cs) ≡ some (scan_dec (c ∷ cs) 0)
unfolding unsigned?
unsigned?-digit c cs h = rw h refl

signed?-digit :
    (c : ℕ) (cs : Chars)
    → is_digit c ≡ true
    → signed? (skip_space (c ∷ cs)) ≡ some (pos (scan_dec (c ∷ cs) 0))
unfolding signed?
signed?-digit c cs h =
    ap signed? (no_space (digit_no_space c h))
    ∙ rw (digit_no_minus c h, digit_no_plus c h, unsigned?-digit c cs h) refl
  where
    no_space : is_space c ≡ false → skip_space (c ∷ cs) ≡ c ∷ cs
    no_space e = unfold skip_space in rw e refl

-- What `printf` writes of a number is read back.
pub signed?-unsigned : (n : ℕ) → signed? (skip_space (unsigned n)) ≡ some (pos n)
unfolding unsigned
signed?-unsigned n =
    let (c, cs, e, d) = first_digit (suc n) n [] (omega arith) in
    ap (λ s. signed? (skip_space s)) e
    ∙ signed?-digit c cs d
    ∙ ap (λ s. some (pos (scan_dec s 0))) (sym e)
    ∙ ap (λ v. some (pos v)) (scan_dec-digits_loop (suc n) n [] (omega arith) ∙ empty n)
  where
    empty : (v : ℕ) → scan_dec [] v ≡ v
    empty v = unfold scan_dec in refl

in_int-pos : (n : ℕ) → n ≤ int_max → in_int (pos n) ≡ some (pos n)
unfolding in_int
in_int-pos n h = ground arith

pub atoi-unsigned : (n : ℕ) → n ≤ int_max → atoi (unsigned n) ≡ some (pos n)
unfolding atoi
atoi-unsigned n h = rw (signed?-unsigned n, atoi) (in_int-pos n h)

pub stoi-unsigned : (n : ℕ) → n ≤ int_max → stoi (unsigned n) ≡ some (pos n)
unfolding stoi
stoi-unsigned n h = rw (signed?-unsigned n, stoi) (in_int-pos n h)
