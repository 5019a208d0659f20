-- ===== src/VerilatorHelper.antt =====
-- Processor/Src/SysDeps/Verilator/VerilatorHelper.h: the debug register of the core, and how the test
-- bench reads it.
pub mod Stage
pub mod Register
pub mod Accessors
pub mod Get
pub mod Laws
