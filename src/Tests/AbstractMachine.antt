-- ===== src/Tests/AbstractMachine.antt =====
-- The abstract machine on the devices of init_device.
use rv32i.Base.{ℕ, refl, arith, List, codes}
use rv32i.Device.Access.{find_map}
use rv32i.AbstractMachine.Ioe.{ioe_read, ioe_write}
use rv32i.AbstractMachine.Serial.{HasSerial}
use rv32i.AbstractMachine.Panic.{literal}
use rv32i.AbstractMachine.Table.{IsAnswer, filled_lut, register-IsAnswer}
use rv32i.Tests.Riscv.{addi_machine}
use rv32i.Tests.Device.{on, serial_map}

on-HasSerial : HasSerial on
unfolding find_map
on-HasSerial = record {
  map = serial_map;
  found = refl;
  low = refl;
  device = record {
    handler = refl;
    space = refl;
    last = refl;
    words = omega arith;
    room = omega arith;
  };
}

abbrev ioe_c : List ℕ
ioe_c = codes "ioe.c"

-- Register 2, the transmitter of a UART, is not in the table.
register-IsAnswer_example :
    IsAnswer
      (λ k. k)
      0x80000100
      ioe_c
      2
      (λ i. 0)
      addi_machine
      on
      (ioe_read 2 (filled_lut (λ k. k) 0x80000100 ioe_c) (λ i. 0) (addi_machine, on))
    × IsAnswer
        (λ k. k)
        0x80000100
        ioe_c
        2
        (λ i. 0)
        addi_machine
        on
        (ioe_write 2 (filled_lut (λ k. k) 0x80000100 ioe_c) (λ i. 0) (addi_machine, on))
register-IsAnswer_example =
    register-IsAnswer (λ k. k) 0x80000100 ioe_c 2 (λ i. 0) addi_machine on (omega arith)
      (literal ioe_c refl) on-HasSerial
