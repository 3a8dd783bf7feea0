-- ===== src/Riscv/Init.antt =====
-- ysyx-workbench/nemu/src/isa/riscv32/init.c: the built-in image and the reset of the machine.
use rv32i.Base.{ℕ, ◌+◌, List, [], ◌∷◌}
use rv32i.Machine.{Machine, update}
use rv32i.Memory.{reset_vector, guest_to_host, store_bytes}

-- addi, addi, sll, lw, addi, beq, jalr, jal and ebreak.
unfoldable pub img : List ℕ
img =
    0b00000000000100000000011000010011 ∷ 0b00000001111100000000011010010011
    ∷ 0b00000000110101100001011100110011 ∷ 0b00000000000001110010011110000011
    ∷ 0b00000000000100000000011010010011 ∷ 0b00000000110101100000010001100011
    ∷ 0b00000000000000001000000001100111 ∷ 0b11111111110111111111000011101111 ∷ 0x00100073 ∷ []

-- memcpy from an array of uint32_t, on a host that is little-endian.
unfoldable pub copy_words : List ℕ → ℕ → (ℕ → ℕ) → ℕ → ℕ
unfolding store_bytes
copy_words [] off mem = mem
copy_words (w ∷ ws) off mem = copy_words ws (off + 4) (store_bytes 4 mem off w)

unfoldable pub restart : Machine → Machine
restart m = record m { pc = reset_vector; gpr = update m.gpr 0 0 }

unfoldable pub init_isa : Machine → Machine
unfolding copy_words guest_to_host img restart
init_isa m = restart (record m { pmem = copy_words img (guest_to_host reset_vector) m.pmem })
