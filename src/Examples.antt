-- ===== src/Examples.antt =====
-- The theorems at concrete inputs.
mod Base
mod StagesA
mod StagesB
mod Registers
mod Outputs
mod Loaders
mod Polling
mod Printing
mod Bench
mod Linux
mod Programs
mod Main
mod Assembly
