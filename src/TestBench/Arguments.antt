-- ===== src/TestBench/Arguments.antt =====
-- TestMain.cpp, `main`: the parameters of the test bench and the command line that sets them.
pub mod Laws
pub mod Match
use rsd_mp.Common.{
  ℕ, List, [], ◌∷◌, ◌++◌, Bool, true, false, not, ◌&&◌, Option, none, some, ◌==◌, if◌then◌else◌,
  ◌>>=◌,
}
use rsd_mp.Common.Text.{Chars, codes}
use rsd_mp.Common.Int.{ℤ, pos, negsuc}
use rsd_mp.Common.Decimal.{stoi}

pub record Parameters : Type 0 where
  pub max_test_cycles : ℤ
  pub enable_pc_goal : Bool
  pub show_serial_out : Bool
  pub test_code : Chars
  pub reg_csv_file : Chars
  pub rsd_log_file : Chars
  pub wave_log_file : Chars

abbrev pub defaults : Parameters
defaults = record {
  max_test_cycles = pos 100;
  enable_pc_goal = true;
  show_serial_out = false;
  test_code = codes "Verification/TestCode/C/Fibonacci";
  reg_csv_file = [];
  rsd_log_file = [];
  wave_log_file = [];
}

-- `operator==` of strings.
unfoldable pub same : Chars → Chars → Bool
same [] [] = true
same [] (d ∷ ds) = false
same (c ∷ cs) [] = false
same (c ∷ cs) (d ∷ ds) = c == d && same cs ds

-- `[^=]+` on a whole text.
unfoldable pub is_value : Chars → Bool
is_value [] = false
is_value (c ∷ []) = not (c == b'=')
is_value (c ∷ d ∷ cs) = not (c == b'=') && is_value (d ∷ cs)

unfoldable pub with_value : Chars → Chars → Option (Chars × Chars)
unfolding is_value
with_value name value = if is_value value then some (name, value) else none

unfoldable pub after_name : ℕ → Option (Chars × Chars) → Option (Chars × Chars)
after_name c none = none
after_name c (some (name, value)) = some (c ∷ name, value)

-- From a second character of the name on.
unfoldable pub match_name : Chars → Option (Chars × Chars)
unfolding with_value after_name
match_name [] = none
match_name (c ∷ cs) =
    let rest = match_name cs in if c == b'=' then with_value [] cs else after_name c rest

-- `regex_match` of `([^=]+)=([^=]+)`: the two submatches.
unfoldable pub match_parameter : Chars → Option (Chars × Chars)
unfolding match_name
match_parameter [] = none
match_parameter (c ∷ cs) = if c == b'=' then none else after_name c (match_name cs)

-- A parameter is set, the number of its value throws an exception, which nothing catches, or the name
-- is unknown.
pub data Setting : Type 0 where
  set_to : Parameters → Setting
  throws : Setting
  unknown : Setting

unfoldable pub is_true : ℤ → Bool
is_true (pos n) = not (n == 0)
is_true (negsuc n) = true

set_number : Option ℤ → (ℤ → Parameters) → Setting
set_number none f = throws
set_number (some v) f = set_to (f v)

unfoldable pub set_parameter : Chars → Chars → Parameters → Setting
unfolding same is_true set_number
set_parameter name value p =
    if same name (codes "MAX_TEST_CYCLES")
    then set_number (stoi value) (λ v. record p { max_test_cycles = v })
    else if same name (codes "ENABLE_PC_GOAL")
    then set_number (stoi value) (λ v. record p { enable_pc_goal = is_true v })
    else if same name (codes "SHOW_SERIAL_OUT")
    then set_number (stoi value) (λ v. record p { show_serial_out = is_true v })
    else if same name (codes "REG_CSV_FILE")
    then set_to (record p { reg_csv_file = value })
    else if same name (codes "RSD_LOG_FILE")
    then set_to (record p { rsd_log_file = value })
    else if same name (codes "TEST_CODE")
    then set_to (record p { test_code = value })
    else if same name (codes "WAVE_LOG_FILE")
    then set_to (record p { wave_log_file = value })
    else unknown

-- The parameters, and the lines that have been printed.
pub record Parsed : Type 0 where
  pub parameters : Parameters
  pub messages : List Chars

unfoldable pub complain : Chars → Parsed → Parsed
complain arg s = record s {
  messages = s.messages ++ (codes "Unknown parameter:" ++ (arg ++ codes "\n")) ∷ [];
}

settled : Chars → Parsed → Setting → Option Parsed
unfolding complain
settled arg s (set_to p) = some (record s { parameters = p })
settled arg s throws = none
settled arg s unknown = some (complain arg s)

unfoldable pub parse_matched : Chars → Parsed → Option (Chars × Chars) → Option Parsed
unfolding settled set_parameter complain
parse_matched arg s none = some (complain arg s)
parse_matched arg s (some (name, value)) = settled arg s (set_parameter name value s.parameters)

-- A round of the loop over the arguments; `none` is an exception.
unfoldable pub parse_argument : Chars → Parsed → Option Parsed
unfolding parse_matched match_parameter
parse_argument arg s = parse_matched arg s (match_parameter arg)

-- The loop; the arguments are those behind the name of the program.
unfoldable pub parse_arguments : List Chars → Parsed → Option Parsed
unfolding parse_argument
parse_arguments [] s = some s
parse_arguments (arg ∷ args) s = parse_argument arg s >>= parse_arguments args
