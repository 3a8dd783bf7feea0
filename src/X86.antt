-- ===== src/X86.antt =====
-- The x86 guest: ysyx-workbench/nemu/src/isa/x86, in the configuration that Kconfig gives it: pmem of
-- 0x8000000 bytes from 0, the reset vector at 0x100000, CONFIG_ITRACE and CONFIG_RT_CHECK set.
pub mod State
pub mod Operand
pub mod Table
pub mod Exec
pub mod Init
pub mod Select
pub mod BuiltIn
pub mod Ends
pub mod Prefixes
pub mod RegTest
pub mod Effective
pub mod Fetch
pub mod Address
