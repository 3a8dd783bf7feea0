-- ===== src/Lib.antt =====
-- NEMU, the instruction set emulator of ysyx-workbench/nemu, with its riscv32, mips32,
-- loongarch32r and x86 guests, its debugger and its devices; and guest programs of
-- ysyx-workbench/am-kernels/tests/cpu-tests.
--
-- The emulator fetches a word of guest memory at the program counter, looks it up in a table of
-- patterns, runs the body of the row, and then checks the watchpoints of its debugger, whose values
-- are expressions over registers and memory. main sets the machine up from the built-in image or a
-- file, and hands it to the debugger, whose commands run it. With devices, an address outside guest
-- memory goes to the map of a device.
--
-- Parts and files (paths of the code are under ysyx-workbench/nemu unless they say otherwise):
--
--   Base        lists, tests, bits, integers and the outcomes that all parts share. An `Outcome` is a
--               value or a `Fault`: the panic of out_of_bound, an assertion, an access beyond a host
--               array, a host division that is undefined, and fuel that ran out.
--   Word        uint32_t and int32_t arithmetic, BITS and SEXT (include/macro.h), over ℕ with the
--               wrap-around written out.
--   Machine     the state: registers and pc (src/isa/riscv32/include/isa-def.h), the bytes of pmem,
--               and nemu_state (include/utils.h, src/utils/state.c). A `Command` is a function of
--               the state; Machine/Ensures is the rule for each step of one.
--   Memory      include/memory/host.h and paddr.h, src/memory/paddr.c and vaddr.c, and inst_fetch.
--               An address is a number, pmem a function of offsets.
--   Pattern     pattern_decode, the test of INSTPAT and the search of a table
--               (include/cpu/decode.h), for strings as lists of character codes. Parts has patterns
--               that follow the fields of a word, Hex the decoder of patterns in hexadecimal.
--   Riscv       src/isa/riscv32/inst.c and reg.c, and src/engine/interpreter/hostcall.c: the table
--               (Table), the bodies and decode_exec (Exec), the arithmetic (Alu), register names
--               (Reg); Fields, Select and OpcodeMap relate the table to the fields of a word,
--               Immediates the immediates to the formats; Division is on div and rem, Product on
--               mul and mulh; Bounds, Bodies and Invariant carry the machine's invariant; Init is
--               init.c, and BuiltIn the run of its image.
--   Guest       what decode_exec and isa_exec_once of the other guests have in common.
--   Mips        src/isa/mips32/inst.c and init.c.
--   Loongarch   src/isa/loongarch32r/inst.c and init.c.
--   X86         src/isa/x86: registers and fetches (State; isa-def.h, reg.h, x86_inst_fetch), operands
--               (Operand), the tables (Table), decoding and bodies (Exec), reg_test and init_isa (Init).
--               Effective is the addressing modes, which Address relates to load_addr by Fetch; Select
--               is on the table, Ends and Prefixes on operand size prefixes, RegTest on reg_test, and
--               BuiltIn on the image.
--   Watch       src/monitor/sdb/watchpoint.c. A pointer to a node is its index, NULL is none.
--   Expr        src/monitor/sdb/expr.c: Tokens for make_token and tokenise, Eval for the rest; Lexer
--               is on the run of make_token. Tree is bracketed expressions and what they mean, and
--               Brackets, MainOp and Meaning are on check_parentheses, get_main_op and eval on them.
--   Cpu         src/cpu/cpu-exec.c: exec_once, execute and cpu_exec over all of the above; Loop has
--               runs as a relation on machines, Invariant what they keep, by Keeps.
--   Debugger    src/monitor/sdb/sdb.c: the table, and in Commands the handlers and the loop over
--               the lines entered. Session and Kept are on what commands keep, Answers on what w
--               and q do.
--   Device      src/device: Keyboard (keyboard.c), Handlers (the callbacks of serial.c, timer.c and
--               keyboard.c, and get_time of src/utils/timer.c), Access (map_read and map_write of
--               io/map.c, mmio.c, port-io.c, and the bus of src/memory/paddr.c), Setup (new_space,
--               the registration of maps, and the init functions), Update (device.c, alarm.c).
--   Difftest    src/cpu/difftest/dut.c; CatchUp is on difftest_step over a run of instructions.
--   Monitor     src/monitor/monitor.c, src/nemu-main.c and init_log of src/utils/log.c.
--   CpuTests    programs of ysyx-workbench/am-kernels/tests/cpu-tests: Functions and Loops,
--               bubble-sort.c (Sort), goldbach.c (Primes) and pascal.c (Pascal).
--   Klib        ysyx-workbench/abstract-machine/klib/src/stdlib.c; Atoi is on atoi.
--   AbstractMachine  the NEMU platform of ysyx-workbench/abstract-machine: output, halt and panic over
--               the bus of Device; Ioe has the registers of am/include/amdev.h and the handlers of
--               am/src/platform/nemu/ioe; Serial and Panic are on putstr and panic, and Table on the
--               table that ioe_init fills.
--   Tests       runs at concrete inputs.
--
-- The configuration is that of include/generated/autoconf.h: riscv32, pmem of 0x8000000 bytes at
-- 0x80000000, the run-time checks on, no devices and no differential testing; Device is on the
-- configuration with CONFIG_DEVICE, with serial port, clock and keyboard. Ranges of tokens are half
-- open here, where the source has inclusive ones.
--
-- Loops and fuel: the list walks of free_wp and check_wp take NR_WP and NR_WP + 1 rounds, which is
-- enough for a well-formed pool, and the theorems on them say so. The loops of get_main_op have
-- one round more than the token array has places, beyond which an access is a fault. make_token has
-- one round for each character and one more. eval takes its fuel from the caller, since the source
-- recurses for ever on some texts. The loop over prefixes of the x86 guest has 16 rounds, each of
-- which takes a byte of an instruction of at most 15. The loops of the guest programs have as many
-- rounds as the source makes.
--
-- Not modelled: output (messages, the instruction trace, the disassembler and statistics), where a
-- command of the debugger has a list of messages; VGA, audio, disk and SD card, which are calls of
-- SDL or stubs; the loading of a reference simulator; the tools; the rest of the abstract machine,
-- and klib apart from stdlib.c and two macros, most of which is platform code or empty; the other
-- guest programs; and the hardware descriptions. The C library's regexec, atoi, sscanf, strtok,
-- getopt_long, rand and files, the host's clock and SDL's scancodes are parameters.
pub mod Base
pub mod Word
pub mod Machine
pub mod Memory
pub mod Pattern
pub mod Riscv
pub mod Watch
pub mod Expr
pub mod Cpu
pub mod Tests
pub mod AbstractMachine
pub mod CpuTests
pub mod Debugger
pub mod Device
pub mod Difftest
pub mod Guest
pub mod Klib
pub mod Loongarch
pub mod Mips
pub mod Monitor
pub mod X86
