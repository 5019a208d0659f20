-- ===== src/TestPrograms/HexLines.antt =====
-- The test programs that print numbers line by line, and the one that prints a fixed text:
-- PerfromanceCounter/code.c, FP/code.c and HelloWorld/code.c. The values that a program prints are
-- bit patterns of 32 bits.
pub mod Laws
use rsd_mp.Common.{ℕ, zero, suc, [], ◌∷◌, ◌++◌}
use rsd_mp.Common.Text.{Chars}
use rsd_mp.Serial.{serial_out_hex, serial_out_char}

-- A number and the end of the line.
unfoldable pub print_number : ℕ → Chars
unfolding serial_out_char
print_number v = serial_out_hex v ++ serial_out_char b'\n'

-- PerfromanceCounter: the loop from `i` on; `counter i` is what round `i` reads of the hardware
-- counter.
unfoldable pub counter_loop : ℕ → ℕ → (ℕ → ℕ) → Chars
unfolding print_number
counter_loop zero i counter = []
counter_loop (suc left) i counter = print_number (counter i) ++ counter_loop left (suc i) counter

unfoldable pub performance_counter : (ℕ → ℕ) → Chars
unfolding counter_loop
performance_counter = counter_loop 10 0

-- The operations on `float` that FP uses, which the compiler and the processor give.
pub record FloatOps (F : Type 0) : Type 0 where
  pub of_int : ℕ → F
  pub add : F → F → F
  pub sub : F → F → F
  pub mul : F → F → F
  pub div : F → F → F
  pub three : F
  pub one_and_half : F
  pub bitcast : F → ℕ

-- FP: `(s - i) * 3.0f / i + 1.5f`.
unfoldable pub fp_step : {F : Type 0} → FloatOps F → ℕ → F → F
fp_step ops i s =
    ops.add (ops.div (ops.mul (ops.sub s (ops.of_int i)) ops.three) (ops.of_int i)) ops.one_and_half

-- The loop from `i` on.
unfoldable pub fp_loop : {F : Type 0} → FloatOps F → ℕ → ℕ → F → Chars
unfolding print_number fp_step
fp_loop ops zero i s = []
fp_loop ops (suc left) i s =
    print_number (ops.bitcast (fp_step ops i s)) ++ fp_loop ops left (suc i) (fp_step ops i s)

unfoldable pub fp_main : {F : Type 0} → FloatOps F → Chars
unfolding fp_loop
fp_main ops = fp_loop ops 100 1 (ops.of_int 0)

-- HelloWorld: the stores to the serial port.
unfoldable pub hello_world : Chars
hello_world =
    b'H' ∷ b'e' ∷ b'l' ∷ b'l' ∷ b'o' ∷ b',' ∷ b'W' ∷ b'o' ∷ b'r' ∷ b'l' ∷ b'd' ∷ b'!' ∷ b'\n' ∷ []
