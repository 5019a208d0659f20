-- ===== src/TestPrograms/Exception.antt =====
-- Processor/Src/Verification/TestCode/C/Exception/code.c: branches on a pseudo-random number, with the
-- taken ones shown on the serial port.
pub mod Laws
use Prim.Native.Nat.{bit_xor}
use rsd_mp.Common.{
  ℕ, zero, suc, ◌+◌, ◌*◌, ◌/◌, ◌%◌, ◌^◌, [], ◌∷◌, ◌++◌, Option, none, some, ◌==◌, if◌then◌else◌,
  ◌>>=◌,
}
use rsd_mp.Common.Text.{Chars}
use rsd_mp.Serial.{serial_out_char}
use rsd_mp.TestPrograms.Sum.{add_int}

-- `rand`: the next value of `y`, which is also the result.
unfoldable pub rand : ℕ → ℕ
rand y =
    let y1 = bit_xor y (y * 2 ^ 13 % 2 ^ 32) in
    let y2 = bit_xor y1 (y1 / 2 ^ 17) in bit_xor y2 (y2 * 2 ^ 5 % 2 ^ 32)

abbrev pub seed : ℕ
seed = 1987534242

-- The variables, without `i`; only the first entry of `memory` is used, and a round stores it before
-- it reads it.
pub record Spin : Type 0 where
  pub y : ℕ
  pub tmp : ℕ
  pub sum : ℕ
  pub out : Chars

-- A round; `none` is an overflow.
unfoldable pub spin : ℕ → Spin → Option Spin
unfolding add_int serial_out_char
spin i s = do
  let y = rand s.y
  let memory = if y % 2 == 0 then 0 else 1
  tmp ← add_int s.tmp memory
  sum ← add_int s.sum i
  some (record {
    y = y;
    tmp = tmp;
    sum = sum;
    out = s.out ++ (if memory == 1 then serial_out_char b'1' else serial_out_char b'0');
  })

-- The loop from `i` on.
unfoldable pub spin_loop : ℕ → ℕ → Spin → Option Spin
unfolding spin
spin_loop zero i s = some s
spin_loop (suc left) i s = spin i s >>= spin_loop left (suc i)

-- The loop that waits for the serial output.
unfoldable pub wait_loop : ℕ → ℕ → Spin → Option Spin
unfolding add_int
wait_loop zero i s = some s
wait_loop (suc left) i s =
    add_int s.sum i >>= (λ sum. wait_loop left (suc i) (record s { sum = sum }))

unfoldable pub spinning : ℕ → ℕ → Option Spin
unfolding spin_loop wait_loop
spinning loop_num y =
    spin_loop loop_num 0 (record { y = y; tmp = 0; sum = 0; out = [] }) >>= wait_loop 100 0

unfoldable pub exception_main : Option Spin
unfolding spinning
exception_main = spinning 10000 seed
