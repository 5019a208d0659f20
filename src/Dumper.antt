-- ===== src/Dumper.antt =====
-- Processor/Src/SysDeps/Verilator/Dumper.h: the dumpers of the Verilator test bench.
pub mod Kanata
pub mod Serial
pub mod RegisterFile
pub mod RegisterCsv
