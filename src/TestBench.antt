-- ===== src/TestBench.antt =====
-- Processor/Src/SysDeps/Verilator/TestMain.cpp: the test bench.
pub mod Arguments
pub mod HexFile
pub mod Registers
pub mod Simulation
pub mod Main
