-- ===== src/Dumper/Kanata/Helpers.antt =====
-- Dumper.h, `FormatString` and `Bin2Str`: the buffer is enlarged until the text fits, and the bits
-- are those of the number.
use rsd_mp.Common.{
  take_all, ℕ, zero, suc, ◌+◌, ◌*◌, ◌/◌, ◌%◌, ◌^◌, ◌<◌, ◌≤◌, ◌-◌, Bool, true, false, some, ◌≡◌,
  refl, arith, [], ◌∷◌, ◌++◌, length, ltb, ◌==◌, if◌then◌else◌, ap, ap₂, sym, ◌∙◌, lt→ltb, ltb→lt,
  Bool-cases, inl, inr,
}
use native.Mathlib.Nat.{div-div-eq-div-mul, div-eq_of_lt, div-one}
use rsd_mp.Common.Text.{Chars}
use rsd_mp.Dumper.Kanata.Base.{format_loop, vsnprintf, bin_loop, bin_to_str}

-- The loop that starts with a buffer of a byte or more gives the whole text within as many rounds as
-- the text has bytes and one.
pub format_loop_lem :
    (fuel size : ℕ) (text : Chars)
    → 1 ≤ size
    → length text < size + fuel
    → format_loop (suc fuel) size (some text) ≡ some text
unfolding format_loop vsnprintf
format_loop_lem zero size text h b =
    let e : ltb (length text) size ≡ true = lt→ltb (length text) size (omega arith) in
    rw (e, take_all (size - 1) text (omega arith)) refl
format_loop_lem (suc fuel) size text h b = elim (Bool-cases (ltb (length text) size)) [
  | inl e ↦
      let l = ltb→lt (length text) size e in rw (e, take_all (size - 1) text (omega arith)) refl
  | inr e ↦ rw e (format_loop_lem fuel (size * 2) text (omega arith) (omega arith))
]

-- A reader of binary digits.
unfoldable pub read_bin : Chars → ℕ → ℕ
read_bin [] acc = acc
read_bin (c ∷ cs) acc = read_bin cs (acc * 2 + (c - b'0'))

read_bin-append :
    (xs ys : Chars) (acc : ℕ) → read_bin (xs ++ ys) acc ≡ read_bin ys (read_bin xs acc)
unfolding read_bin
read_bin-append [] ys acc = refl
read_bin-append (x ∷ xs) ys acc = read_bin-append xs ys (acc * 2 + (x - b'0'))

bit_above : (b i : ℕ) → (b / 2 ^ suc i) * 2 + (b / 2 ^ i) % 2 ≡ b / 2 ^ i
bit_above b i =
    let p : 2 ^ suc i ≡ 2 ^ i * 2 = omega arith in
    let e : b / 2 ^ suc i ≡ b / 2 ^ i / 2 =
      ap (λ m. b / m) p ∙ sym (div-div-eq-div-mul b (2 ^ i) 2) in
    omega (arith, e)

bit_char : ℕ → ℕ
bit_char x = if x % 2 == 1 then b'1' else b'0'

bit_char_lem : (x : ℕ) → bit_char x - b'0' ≡ x % 2
unfolding bit_char
bit_char_lem x = ground arith

-- What has been printed are the bits above those that are left.
bin_loop-started :
    (i b : ℕ) (dst : Chars) → read_bin dst 0 ≡ b / 2 ^ i → read_bin (bin_loop i b true dst) 0 ≡ b
unfolding bin_loop read_bin bit_char
bin_loop-started zero b dst h = h ∙ div-one b
bin_loop-started (suc i) b dst h =
    let e : read_bin (dst ++ bit_char (b / 2 ^ i) ∷ []) 0 ≡ b / 2 ^ i =
      read_bin-append dst (bit_char (b / 2 ^ i) ∷ []) 0
      ∙ ap₂ (λ x y. x * 2 + y) h (bit_char_lem (b / 2 ^ i))
      ∙ bit_above b i in
    bin_loop-started i b (dst ++ bit_char (b / 2 ^ i) ∷ []) e

bin_loop-waiting : (i b : ℕ) → b / 2 ^ i ≡ 0 → read_bin (bin_loop i b false []) 0 ≡ b
unfolding bin_loop read_bin
bin_loop-waiting zero b h = sym h ∙ div-one b
bin_loop-waiting (suc i) b h =
    let above = bit_above b i in
    elim (Bool-cases ((b / 2 ^ i) % 2 == 1)) [
      | inl e ↦ rw e (bin_loop-started i b (b'1' ∷ []) (ground (arith, above, h, e)))
      | inr e ↦ rw e (bin_loop-waiting i b (ground (arith, above, h, e)))
    ]

-- The text that `Bin2Str` makes of a number that fits its length, padded or not, reads back as the
-- number.
pub read_bin-bin_to_str :
    (b length : ℕ) (zero_padding : Bool)
    → b < 2 ^ length
    → read_bin (bin_to_str b length zero_padding) 0 ≡ b
unfolding bin_to_str read_bin
read_bin-bin_to_str b length true h = bin_loop-started length b [] (sym (div-eq_of_lt h))
read_bin-bin_to_str b length false h = bin_loop-waiting length b (div-eq_of_lt h)
