-- ===== src/Loongarch.antt =====
-- The loongarch32r guest: ysyx-workbench/nemu/src/isa/loongarch32r/inst.c and init.c. Decode, the operands and the
-- parts of the bodies are those of the riscv32 guest.
pub mod Exec
pub mod Select
pub mod Invariant
pub mod BuiltIn
