-- ===== src/Tests.antt =====
-- Runs of the model at concrete inputs, and the theorems at inputs that meet their hypotheses.
mod Memory
mod Pattern
mod Riscv
mod Watch
mod Cpu
mod Expr
mod Device
mod Debugger
mod Guests
mod CpuTests
mod Difftest
mod Klib
mod X86
mod AbstractMachine
