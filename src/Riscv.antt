-- ===== src/Riscv.antt =====
-- The riscv32 guest: ysyx-workbench/nemu/src/isa/riscv32/inst.c and reg.c, and
-- src/engine/interpreter/hostcall.c.
pub mod Table
pub mod Alu
pub mod Exec
pub mod Fields
pub mod Select
pub mod Immediates
pub mod Division
pub mod Product
pub mod Reg
pub mod OpcodeMap
pub mod Bounds
pub mod Bodies
pub mod Invariant
pub mod Init
pub mod BuiltIn
