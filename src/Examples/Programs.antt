-- ===== src/Examples/Programs.antt =====
-- The theorems on the test programs at concrete inputs.
use rsd_mp.Common.{◌%◌, ◌^◌, some, ◌≡◌, refl, arith}
use rsd_mp.Common.Int.{pos}
use rsd_mp.TestPrograms.Fibonacci.{fibonacci, fibonacci_main, number_behind, fibonacci-fib}
use rsd_mp.TestPrograms.Exception.{Spin, spinning, seed}
use rsd_mp.TestPrograms.Exception.Laws.{bits, ones, spinning-bits}
use rsd_mp.TestPrograms.DCache.{test_lines, test}
use rsd_mp.TestPrograms.DCache.Laws.{lines_sum, test_lines-lines_sum}
use rsd_mp.Examples.Loaders.{zeros}

fibonacci_main_runs : fibonacci_main ≡ some 17712
unfolding fibonacci_main
fibonacci_main_runs = refl

fibonacci-fib_example : fibonacci (pos 20) ≡ number_behind (pos 20)
fibonacci-fib_example = fibonacci-fib (pos 20)

spinning-bits_example :
    (s : Spin) × (spinning 3 seed ≡ some s) × (s.out ≡ bits 3 seed) × (s.tmp ≡ ones (bits 3 seed))
spinning-bits_example = spinning-bits 3 seed (omega arith)

test_lines-lines_sum_example :
    (test_lines 16 64 zeros ≡ some (lines_sum 16 64 % 2 ^ 32)) × (test zeros ≡ some 72)
test_lines-lines_sum_example = test_lines-lines_sum 16 64 zeros (omega arith) (omega arith)
