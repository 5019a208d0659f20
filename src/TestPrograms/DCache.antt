-- ===== src/TestPrograms/DCache.antt =====
-- Processor/Src/Verification/TestCode/C/DCache/code.c: stores to all ways of some lines of the data
-- cache, and loads of them.
pub mod Laws
use rsd_mp.Common.{
  ℕ, zero, suc, ◌+◌, ◌*◌, ◌/◌, ◌%◌, ◌^◌, Option, none, some, ltb, if◌then◌else◌, ◌>>=◌,
}
use rsd_mp.Common.Memory.{Memory, store}

abbrev pub way_num : ℕ
way_num = 8

abbrev pub dcache_line_byte_num : ℕ
dcache_line_byte_num = 8

abbrev pub dcache_index_num : ℕ
dcache_index_num = 512 / way_num

abbrev pub aligned_size : ℕ
aligned_size = dcache_line_byte_num * dcache_index_num

abbrev pub total_size : ℕ
total_size = aligned_size * way_num

abbrev pub test_size : ℕ
test_size = dcache_line_byte_num * 2

-- `array[at] = v` and a read of it, as bytes; outside the array they are undefined.
unfoldable pub put : ℕ → ℕ → Memory → Option Memory
put at v array = if ltb at (total_size * 2) then some (store array at (v % 256)) else none

unfoldable pub get : ℕ → Memory → Option ℕ
get at array = if ltb at (total_size * 2) then some (array at) else none

-- The inner loop of the stores, from `way` on.
unfoldable pub write_ways : ℕ → ℕ → ℕ → Memory → Option Memory
unfolding put
write_ways zero way i array = some array
write_ways (suc left) way i array =
    put (way * aligned_size + i) (way + 1) array >>= write_ways left (suc way) i

-- The loop of the stores, from `i` on.
unfoldable pub write_lines : ℕ → ℕ → ℕ → Memory → Option Memory
unfolding write_ways
write_lines ways zero i array = some array
write_lines ways (suc left) i array =
    write_ways ways 0 i array >>= write_lines ways left (i + dcache_line_byte_num)

unfoldable pub sum_ways : ℕ → ℕ → ℕ → Memory → ℕ → Option ℕ
unfolding get
sum_ways zero way i array sum = some sum
sum_ways (suc left) way i array sum =
    get (way * aligned_size + i) array
    >>= (λ v. sum_ways left (suc way) i array ((sum + v) % 2 ^ 32))

unfoldable pub sum_lines : ℕ → ℕ → ℕ → Memory → ℕ → Option ℕ
unfolding sum_ways
sum_lines ways zero i array sum = some sum
sum_lines ways (suc left) i array sum =
    sum_ways ways 0 i array sum >>= sum_lines ways left (i + dcache_line_byte_num) array

-- The last loop, which reads two bytes in each round.
unfoldable pub read_pair : ℕ → Memory → ℕ → Option ℕ
unfolding get
read_pair zero array sum = some sum
read_pair (suc left) array sum = do
  a ← get (total_size * 0) array
  b ← get (total_size * 1) array
  read_pair left array (((sum + a) % 2 ^ 32 + b) % 2 ^ 32)

-- `test`, with the numbers of ways and lines; `LOOP_NUM` is 1000.
unfoldable pub test_lines : ℕ → ℕ → Memory → Option ℕ
unfolding write_lines sum_lines read_pair
test_lines ways lines array = do
  written ← write_lines ways lines 0 array
  sum ← sum_lines ways lines 0 written 0
  first ← put (total_size * 0) 1 written
  second ← put (total_size * 1) 1 first
  sum2 ← read_pair 1000 second 0
  some sum

unfoldable pub test : Memory → Option ℕ
unfolding test_lines
test = test_lines way_num (test_size / dcache_line_byte_num)
