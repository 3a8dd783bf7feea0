-- ===== src/CpuTests.antt =====
-- Programs of ysyx-workbench/am-kernels/tests/cpu-tests.
pub mod Check
pub mod Functions
pub mod Loops
pub mod Pascal
pub mod Sort
pub mod Primes
