-- ===== src/Serial/Dec.antt =====
-- `serial_out_dec` prints the decimal numeral of an `int`.
use rsd_mp.Common.{
  ℕ, zero, suc, ◌+◌, ◌-◌, ◌*◌, ◌/◌, ◌%◌, ◌^◌, ◌<◌, ◌≤◌, ◌≡◌, ◌≢◌, refl, sym, [], ◌∷◌, arith, some,
  none,
}
use rsd_mp.Common.{◌==◌, if◌then◌else◌, length, ◌∙◌, ap, Option, ◌↔◌}
use rsd_mp.Common.Text.{Chars}
use native.Mathlib.Decide.{ℕ_discrete}
use native.Mathlib.Nat.{pow-suc}
use rsd_mp.Common.Int.{ℤ, pos, negsuc, int_max, int_min, IsInt, ℤ-discrete}
use rsd_mp.Serial.{dec_loop, put_minus, negate, serial_out_dec, digit_dec}

-- The number that decimal digits spell, the first one given first.
pub read_digits : Chars → ℕ → ℕ
read_digits [] acc = acc
read_digits (c ∷ cs) acc = read_digits cs (acc * 10 + (c - b'0'))

minus : ℕ → ℤ
minus zero = pos 0
minus (suc n) = negsuc n

-- The number that a numeral with an optional minus spells.
pub read_dec : Chars → ℤ
unfolding read_digits minus
read_dec [] = pos 0
read_dec (c ∷ cs) = if c == b'-' then minus (read_digits cs 0) else pos (read_digits (c ∷ cs) 0)

-- What a run of the loop from `n` and `c`, with `k` entries used at most, leaves behind.
record Digits (n k : ℕ) (c : Chars) (result : Option Chars) : Type 0 where
  first : ℕ
  rest : Chars
  is_digit : first < 10
  returns : result ≡ some ((first + b'0') ∷ rest)
  spells : read_digits ((first + b'0') ∷ rest) 0 ≡ read_digits c n
  fits : length rest < length c + k

last_digit : (n : ℕ) (c : Chars) → read_digits ((n % 10 + b'0') ∷ c) (n / 10) ≡ read_digits c n
unfolding read_digits
last_digit n c = ap (read_digits c) (omega arith)

dec_loop_done :
    (k room n : ℕ) (c : Chars) → n / 10 ≡ 0 → Digits n (suc k) c (dec_loop (suc room) n c)
unfolding dec_loop
dec_loop_done k room n c e = record {
  first = n % 10;
  rest = c;
  is_digit = omega arith;
  returns = ground arith;
  spells = ap (read_digits ((n % 10 + b'0') ∷ c)) (sym e) ∙ last_digit n c;
  fits = omega arith;
}

dec_loop_more :
    (room n : ℕ) (c : Chars)
    → n / 10 ≢ 0
    → dec_loop (suc room) n c ≡ dec_loop room (n / 10) ((n % 10 + b'0') ∷ c)
unfolding dec_loop
dec_loop_more room n c ne = ground arith

-- With room left the loop returns, puts the digits of `n` before those that are there, and takes
-- as many entries as `n` has digits at most.
dec_loop-Digits :
    (k room n : ℕ) (c : Chars)
    → k ≤ room
    → n < 10 ^ suc k
    → Digits n (suc k) c (dec_loop (suc room) n c)
dec_loop-Digits zero room n c le h = dec_loop_done 0 room n c (omega arith)
dec_loop-Digits (suc k) zero n c le h = absurd (omega arith)
dec_loop-Digits (suc k) (suc room) n c le h = elim (ℕ_discrete (n / 10) 0) [
  | yes e ↦ dec_loop_done (suc k) (suc room) n c e
  | no ne ↦
      let d =
        dec_loop-Digits k room (n / 10) ((n % 10 + b'0') ∷ c) (omega arith)
          (omega (arith, pow-suc 10 (suc k))) in
      rw (dec_loop_more (suc room) n c ne) (record {
        first = d.first;
        rest = d.rest;
        is_digit = d.is_digit;
        returns = d.returns;
        spells = d.spells ∙ last_digit n c;
        fits = omega (arith, d.fits);
      })
]

-- The digits of a value in the range of `int`, ten of them at most.
printed : (n : ℕ) → n ≤ suc int_max → Digits n 10 [] (dec_loop digit_dec n [])
printed n h = dec_loop-Digits 9 255 n [] (omega arith) (omega arith)

pos-returns :
    (n : ℕ)
    → (d : Digits n 10 [] (dec_loop digit_dec n []))
    → (out : Chars) × (serial_out_dec (pos n) ≡ some out)
      × (read_dec out ≡ pos n)
      × (length out ≤ 11)
unfolding serial_out_dec read_dec
pos-returns n d = (
  (d.first + b'0') ∷ d.rest,
  d.returns,
  ground (arith, d.is_digit, d.spells),
  omega (arith, d.fits),
)

negate_fits : (n : ℕ) → n < int_max → negate (negsuc n) ≡ some (pos (suc n))
unfolding negate
negate_fits n h = ground arith

put_minus_fits : (c : Chars) → length c < digit_dec → put_minus c ≡ some (b'-' ∷ c)
unfolding put_minus
put_minus_fits c h = ground arith

negative :
    (n : ℕ) (c : Chars)
    → n < int_max
    → length c < digit_dec
    → dec_loop digit_dec (suc n) [] ≡ some c
    → serial_out_dec (negsuc n) ≡ some (b'-' ∷ c)
unfolding serial_out_dec
negative n c h fits e = rw (negate_fits n h, e) (put_minus_fits c fits)

neg-returns :
    (n : ℕ)
    → n < int_max
    → (d : Digits (suc n) 10 [] (dec_loop digit_dec (suc n) []))
    → (out : Chars) × (serial_out_dec (negsuc n) ≡ some out)
      × (read_dec out ≡ negsuc n)
      × (length out ≤ 11)
unfolding read_dec
neg-returns n h d = (
  b'-' ∷ (d.first + b'0') ∷ d.rest,
  negative n _ h (omega (arith, d.fits)) d.returns,
  ap minus d.spells,
  omega (arith, d.fits),
)

-- Every `int` but the least one is printed without a fault, as a numeral of eleven characters at
-- most that reads back as the value.
pub read_dec-serial_out_dec :
    (val : ℤ)
    → IsInt val
    → val ≢ int_min
    → (out : Chars) × (serial_out_dec val ≡ some out) × (read_dec out ≡ val) × (length out ≤ 11)
read_dec-serial_out_dec (pos n) h ne = pos-returns n (printed n (omega arith))
read_dec-serial_out_dec (negsuc n) h ne =
    let lt : n < int_max = below in neg-returns n lt (printed (suc n) (omega arith))
  where
    below : n < int_max
    below = elim (ℕ_discrete n int_max) [
      | yes e ↦ absurd (ne (ap negsuc e))
      | no other ↦ omega arith
    ]

-- At the least `int` the change of sign overflows, so the call has no defined result.
pub serial_out_dec-int_min : serial_out_dec int_min ≡ none
unfolding serial_out_dec
serial_out_dec-int_min = refl

-- `serial_out_dec` has a defined result for an `int` exactly when it is not the least one.
pub serial_out_dec-none_iff : (val : ℤ) → IsInt val → (serial_out_dec val ≡ none) ↔ (val ≡ int_min)
serial_out_dec-none_iff val h = (faults, λ e. rw e serial_out_dec-int_min)
  where
    faults : serial_out_dec val ≡ none → val ≡ int_min
    faults e = elim (ℤ-discrete val int_min) [
      | yes same ↦ same
      | no other ↦ let r = read_dec-serial_out_dec val h other in cc (e, r.1)
    ]
