-- ===== src/TestPrograms.antt =====
-- Processor/Src/Verification/TestCode/C: the test programs, each in its own code.c.
pub mod Sum
pub mod Fibonacci
pub mod HexLines
pub mod Exception
pub mod DCache
