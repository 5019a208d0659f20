-- ===== src/TestBench/Arguments/Laws.antt =====
-- TestMain.cpp, `main`: parameters that are written to a command line are read back.
use rsd_mp.Common.{
  ℕ, zero, suc, ◌<◌, ◌%◌, ◌/◌, ◌≤◌, sym, subst, All, List, [], ◌∷◌, ◌++◌, Bool, true, false, Option,
  some, ◌==◌, ◌≡◌, refl, ap, ◌∙◌, arith, Bool-cases, inl, inr, ◌&&◌, not, ◌>>=◌,
}
use rsd_mp.Common.Text.{Chars, codes, is_space}
use rsd_mp.Common.Int.{ℤ, pos, int_max}
use rsd_mp.Common.Format.{unsigned, bit, digits_loop, digit_char}
use rsd_mp.Common.Decimal.{stoi}
use rsd_mp.Common.Decimal.Laws.{stoi-unsigned, first_digit}
use rsd_mp.TestBench.Arguments.{
  Parameters, Parsed, is_value, match_name, match_parameter, set_parameter, parse_matched,
  parse_argument, parse_arguments, is_true, set_to,
}

-- A value: some characters, none of them `=`.
abbrev pub IsValue : Chars → Type 0
IsValue s = is_value s ≡ true

abbrev pub IsPlain : Chars → Type 0
IsPlain = All (λ c. (c == b'=') ≡ false)

-- NAME=VALUE.
abbrev pub argument : Chars → Chars → Chars
argument name value = name ++ (b'=' ∷ value)

pub IsPlain-IsValue : (c : ℕ) (cs : Chars) → IsPlain (c ∷ cs) → IsValue (c ∷ cs)
unfolding is_value
IsPlain-IsValue c [] (e, h) = ap not e
IsPlain-IsValue c (d ∷ cs) (e, h) = let ih = IsPlain-IsValue d cs h in rw (e, ih) refl

match_name-argument :
    (name value : Chars)
    → IsPlain name
    → IsValue value
    → match_name (argument name value) ≡ some (name, value)
unfolding match_name
match_name-argument [] value h v = rw v refl
match_name-argument (c ∷ cs) value (e, h) v =
    let ih = match_name-argument cs value h v in rw (e, ih) refl

-- Any name and value without `=` are what the regular expression finds.
pub match_parameter-argument :
    (c : ℕ) (cs value : Chars)
    → IsPlain (c ∷ cs)
    → IsValue value
    → match_parameter (argument (c ∷ cs) value) ≡ some (c ∷ cs, value)
unfolding match_parameter
match_parameter-argument c cs value (e, h) v = rw (e, match_name-argument cs value h v) refl

parse_argument-set :
    (c : ℕ) (cs value : Chars) (s : Parsed) (p : Parameters)
    → IsPlain (c ∷ cs)
    → IsValue value
    → set_parameter (c ∷ cs) value s.parameters ≡ set_to p
    → parse_argument (argument (c ∷ cs) value) s ≡ some (record s { parameters = p })
unfolding parse_argument
parse_argument-set c cs value s p h v e =
    rw (match_parameter-argument c cs value h v, parse_matched) (rw e refl)

digits_loop-IsPlain : (fuel n : ℕ) (out : Chars) → IsPlain out → IsPlain (digits_loop 10 fuel n out)
unfolding digits_loop
digits_loop-IsPlain zero n out h = h
digits_loop-IsPlain (suc fuel) n out h =
    let c : ℕ = digit_char (n % 10) in
    let plain : (c == b'=') ≡ false = digit_plain (n % 10) (omega arith) in
    elim (Bool-cases (n / 10 == 0)) [
      | inl e ↦ rw e (plain, h)
      | inr e ↦ rw e (digits_loop-IsPlain fuel (n / 10) (c ∷ out) (plain, h))
    ]
  where
    digit_plain : (d : ℕ) → d < 10 → (digit_char d == b'=') ≡ false
    digit_plain d lt = unfold digit_char in ground arith

unsigned-IsValue : (n : ℕ) → IsValue (unsigned n)
unfolding unsigned
unsigned-IsValue n =
    let (c, cs, e, d) = first_digit (suc n) n [] (omega arith) in
    subst IsValue (sym e)
      (IsPlain-IsValue c cs (subst IsPlain e (digits_loop-IsPlain (suc n) n [] tt)))

-- The command line that sets all parameters, with a maximum of `n` cycles.
abbrev pub arguments : ℕ → Parameters → List Chars
arguments n p =
    argument (codes "MAX_TEST_CYCLES") (unsigned n)
    ∷ argument (codes "ENABLE_PC_GOAL") (bit p.enable_pc_goal)
    ∷ argument (codes "SHOW_SERIAL_OUT") (bit p.show_serial_out)
    ∷ argument (codes "REG_CSV_FILE") p.reg_csv_file
    ∷ argument (codes "RSD_LOG_FILE") p.rsd_log_file
    ∷ argument (codes "TEST_CODE") p.test_code
    ∷ argument (codes "WAVE_LOG_FILE") p.wave_log_file
    ∷ []

bit-IsValue : (b : Bool) → IsValue (bit b)
unfolding is_value bit
bit-IsValue true = refl
bit-IsValue false = refl

stoi-bit : (b : Bool) → (v : ℤ) × (stoi (bit b) ≡ some v) × (is_true v ≡ b)
unfolding bit stoi is_true is_space
stoi-bit true = (pos 1, refl, refl)
stoi-bit false = (pos 0, refl, refl)

sets_max_test_cycles :
    (n : ℕ) (p : Parameters)
    → n ≤ int_max
    → set_parameter (codes "MAX_TEST_CYCLES") (unsigned n) p
      ≡ set_to (record p { max_test_cycles = pos n })
unfolding set_parameter
sets_max_test_cycles n p le = rw (stoi-unsigned n le) refl

sets_enable_pc_goal :
    (b : Bool) (p : Parameters)
    → set_parameter (codes "ENABLE_PC_GOAL") (bit b) p ≡ set_to (record p { enable_pc_goal = b })
unfolding set_parameter
sets_enable_pc_goal b p =
    let (v, e, t) = stoi-bit b in rw e (ap (λ u. set_to (record p { enable_pc_goal = u })) t)

sets_show_serial_out :
    (b : Bool) (p : Parameters)
    → set_parameter (codes "SHOW_SERIAL_OUT") (bit b) p ≡ set_to (record p { show_serial_out = b })
unfolding set_parameter
sets_show_serial_out b p =
    let (v, e, t) = stoi-bit b in rw e (ap (λ u. set_to (record p { show_serial_out = u })) t)

sets_reg_csv_file :
    (value : Chars) (p : Parameters)
    → set_parameter (codes "REG_CSV_FILE") value p ≡ set_to (record p { reg_csv_file = value })
unfolding set_parameter
sets_reg_csv_file value p = refl

sets_rsd_log_file :
    (value : Chars) (p : Parameters)
    → set_parameter (codes "RSD_LOG_FILE") value p ≡ set_to (record p { rsd_log_file = value })
unfolding set_parameter
sets_rsd_log_file value p = refl

sets_test_code :
    (value : Chars) (p : Parameters)
    → set_parameter (codes "TEST_CODE") value p ≡ set_to (record p { test_code = value })
unfolding set_parameter
sets_test_code value p = refl

sets_wave_log_file :
    (value : Chars) (p : Parameters)
    → set_parameter (codes "WAVE_LOG_FILE") value p ≡ set_to (record p { wave_log_file = value })
unfolding set_parameter
sets_wave_log_file value p = refl

pub IsValue-IsPlain : (c : ℕ) (cs : Chars) → IsValue (c ∷ cs) → IsPlain (c ∷ cs)
unfolding is_value
IsValue-IsPlain c [] h = elim (Bool-cases (c == b'=')) [
  | inl e ↦ absurd (refused e h)
  | inr e ↦ (e, tt)
]
  where
    refused : (c == b'=') ≡ true → not (c == b'=') ≡ true → ⊥
    refused e h = ground arith
IsValue-IsPlain c (d ∷ cs) h = elim (Bool-cases (c == b'=')) [
  | inl e ↦ absurd (refused e h)
  | inr e ↦ (e, IsValue-IsPlain d cs (rest e h))
]
  where
    refused : (c == b'=') ≡ true → (not (c == b'=') && is_value (d ∷ cs)) ≡ true → ⊥
    refused e h = ground arith

    rest :
        (c == b'=') ≡ false
        → (not (c == b'=') && is_value (d ∷ cs)) ≡ true
        → is_value (d ∷ cs) ≡ true
    rest e h = ground arith

step :
    (name value : Chars) (args : List Chars) (s : Parsed) (p : Parameters) (r : Option Parsed)
    → IsValue name
    → IsValue value
    → set_parameter name value s.parameters ≡ set_to p
    → parse_arguments args (record s { parameters = p }) ≡ r
    → parse_arguments (argument name value ∷ args) s ≡ r
unfolding parse_arguments
step [] value args s p r h v e rest = absurd (no_name h)
  where
    no_name : is_value [] ≡ true → ⊥
    no_name h = unfold is_value in cc
step (c ∷ cs) value args s p r h v e rest =
    ap (λ t. t >>= parse_arguments args)
      (parse_argument-set c cs value s p (IsValue-IsPlain c cs h) v e)
    ∙ rest

-- Whatever the parameters were before, a command line that sets every parameter gives exactly those
-- that it was written from, and nothing is printed, if the maximum of cycles is an `int` and the four
-- texts are not empty and have no `=`.
pub parse_arguments-arguments :
    (n : ℕ) (p q : Parameters) (messages : List Chars)
    → n ≤ int_max
    → IsValue p.reg_csv_file
    → IsValue p.rsd_log_file
    → IsValue p.test_code
    → IsValue p.wave_log_file
    → parse_arguments (arguments n p) (record { parameters = q; messages = messages })
      ≡ some (record { parameters = record p { max_test_cycles = pos n }; messages = messages })
unfolding is_value
parse_arguments-arguments n p q messages le csv log code wave =
    step (codes "MAX_TEST_CYCLES") (unsigned n) _ _ _ _ refl (unsigned-IsValue n)
      (sets_max_test_cycles n q le)
      (step (codes "ENABLE_PC_GOAL") (bit p.enable_pc_goal) _ _ _ _ refl
        (bit-IsValue p.enable_pc_goal) (sets_enable_pc_goal p.enable_pc_goal _)
        (step (codes "SHOW_SERIAL_OUT") (bit p.show_serial_out) _ _ _ _ refl
          (bit-IsValue p.show_serial_out) (sets_show_serial_out p.show_serial_out _)
          (step (codes "REG_CSV_FILE") p.reg_csv_file _ _ _ _ refl csv
            (sets_reg_csv_file p.reg_csv_file _)
            (step (codes "RSD_LOG_FILE") p.rsd_log_file _ _ _ _ refl log
              (sets_rsd_log_file p.rsd_log_file _)
              (step (codes "TEST_CODE") p.test_code _ _ _ _ refl code (sets_test_code p.test_code _)
                (step (codes "WAVE_LOG_FILE") p.wave_log_file _ _ _ _ refl wave
                  (sets_wave_log_file p.wave_log_file _) (parsed _)))))))
  where
    parsed : (s : Parsed) → parse_arguments [] s ≡ some s
    parsed s = unfold parse_arguments in refl
