-- ===== src/Lib.antt =====
-- RSD is an out-of-order RISC-V processor. The core is SystemVerilog; what this library is about are
-- the C and C++ programs around it: the programs that load the main memory of the core and start it,
-- the test bench that simulates it and writes its logs, and the code that runs on it.
--
-- How the parts interact. A program for RSD is a text file `code.hex` with 16 bytes to a line, as 32
-- hexadecimal digits. On a board the processing system sends it to the main memory, releases RSD from
-- reset and shows what RSD prints, from a program of its own (RunSimple, with the transfer loop in
-- ProgramLoader) or from Linux, where it reads the file (LinuxLoader, with the same transfer loop). In
-- the simulation the test bench fills the memory from the same file (TestBench), reads the debug
-- register of the core in every cycle (VerilatorHelper) and writes logs of it (Dumper). On the core, a
-- loader copies the data of the program to RAM first (RsdLoader), and the program (TestPrograms)
-- prints with the routines of the test code's library (Serial).
--
-- The files and the code that they model:
--   Common           helpers: lists and options over the native numbers, text as character codes,
--                    memory as a function of the address, `strtoul` with base 16, `printf` conversions,
--                    `atoi` and `stoi` (Decimal), lines and fields of a text (Fields)
--   Serial           Processor/Src/Verification/TestCode/C/lib.c: memcpy, serial_out_dec,
--                    serial_out_hex, serial_out_char
--   RsdLoader        Processor/Src/Verification/TestCode/rsd-loader.c: _rsd_memcpy, _rsd_memset, _load
--   ProgramLoader    Processor/Project/Vivado/TargetBoards/Zedboard/project_src/run_simple.c: the loops
--                    of main that clear the memory and transfer the program
--   RunSimple        the same file: main from the reset on, with the polling loop; RunSimple.Image is
--                    programinit, the text of the program that is built in
--   LinuxLoader      Processor/Project/Vivado/ARM_Linux/ProgramLoader/loader.c: main, with the reading
--                    of the file (File) and the loop that shows the output of RSD (Polling)
--   TestBench        Processor/Src/SysDeps/Verilator/TestMain.cpp: main (Main), its arguments
--                    (Arguments) and the loop of its simulation (Simulation, with an abstract view in
--                    Observed), loadHexFile (HexFile), GetCommittedRegisterValue (Registers)
--   VerilatorHelper  Processor/Src/SysDeps/Verilator/VerilatorHelper.h: the debug registers (Stage,
--                    Register) and GetDebugRegister (Get)
--   Dumper           Processor/Src/SysDeps/Verilator/Dumper.h: KanataDumper (Kanata), SerialDumper
--                    (Serial), RegisterFileHexDumper (RegisterFile) and RegisterFileCSV_Dumper
--                    (RegisterCsv)
--   TestPrograms     Processor/Src/Verification/TestCode/C: the code.c of Fibonacci, DCache and
--                    Exception; PerfromanceCounter, FP and HelloWorld (HexLines)
--   AsmMacros        Processor/Src/Verification/TestCode/Asm/rsd-asm-macros.h: RSD_IO_WRITE_BYTE,
--                    RSD_IO_WRITE_GPR, RSD_IO_WRITE_STR, RSD_IO_WRITE_GPR_LINE (Str)
--   Examples         the theorems at concrete inputs
--
-- How state and errors are modelled. A class or the variables of a loop are a record, and a method or a
-- round of a loop is a function from the state to the next one. `none` is undefined behaviour: an
-- access behind an array, an overflow of an `int`, a write to a null file pointer. A C++ exception and
-- a call of `exit` are constructors of the result. Numbers are natural numbers; where the code has 32
-- or 64 bits, the wrap-around is written out, and a signed value is the type ℤ of Common.Int or the
-- bit pattern of the value. Loops are structural recursion, on what is read or on the number of rounds
-- that are left.
--
-- Bounds and fuel. `serial_out_dec` has room for 256 digits, as the code has. Only FormatString has
-- fuel of its own: a round doubles the buffer, so that as many rounds as the text has bytes, and one,
-- are enough. The polling loops and the loop of the simulation run on the list of what their rounds
-- read. The sizes of the arrays of loader.c come from its argument; the theorems on the test programs
-- hold for the numbers of rounds, ways and lines that the programs have and for smaller ones. The
-- printing of a string in AsmMacros has a number of rounds; as many as the string has characters, and
-- one, are enough.
--
-- Parameters. The accessors of the debug register, which Verilator generates from the core; the effect
-- of the Xilinx cache flush on the memory that RSD reads; the contents of memory that the code does
-- not initialise, and the bytes behind an array; the addresses that the linker gives; the files, and
-- the results of `open` and `mmap`; what the rounds of the test bench see of the simulated core, for
-- the main memory that it starts with; the text of a quotient of doubles; the operations on `float`;
-- the values of the hardware counter; the addresses of the labels of the macros. The build is the one of
-- Processor/Src/Makefile.verilator.mk, with RSD_FUNCTIONAL_SIMULATION, RSD_MARCH_FP_PIPE and
-- RSD_VERILATOR_TRACE defined and RSD_MARCH_UNIFIED_MULDIV_MEM_PIPE not. Of the trace of Verilator the
-- times of its dumps are modelled. The core holds itself in reset for its first cycles, as the test
-- bench does: the theorems on the end of the simulation allow any rounds before those in which the
-- core is out of reset.
--
-- Not modelled: the core itself, which is SystemVerilog; what Verilator writes into the file of the
-- trace; exceptions that the simulated core throws; the messages of the dumpers on files that they
-- cannot open; RSD_ASSERT_GPR_EQ of rsd-asm-macros.h; the assembly tests; scripts, project files and
-- reference data.
pub mod Common
pub mod Serial
pub mod RsdLoader
pub mod ProgramLoader
pub mod VerilatorHelper
pub mod Dumper
pub mod TestBench
pub mod RunSimple
pub mod LinuxLoader
pub mod TestPrograms
pub mod AsmMacros
pub mod Examples
