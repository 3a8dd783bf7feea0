-- ===== src/AbstractMachine/Serial.antt =====
-- What putstr of the abstract machine does on the devices that the emulator has set up: the bus and
-- the serial port of ysyx-workbench/nemu/src/device.
use rv32i.Base.{
  ℕ, ◌+◌, ◌-◌, ◌%◌, ◌<◌, ◌≡◌, refl, arith, true, false, ◌==◌, List, [], ◌∷◌, reverse_aux, ap, ◌∙◌,
  some, Outcome, ok, and_then,
}
use rv32i.Machine.{Machine}
use rv32i.Memory.{host_len, in_pmem, store_bytes}
use rv32i.Device.{serial_io_handler, IoMap, Devices}
use rv32i.Device.Handlers.{serial_handler, serial_putc, invoke_callback}
use rv32i.Device.Access.{find_map, map_write, mmio_write, bus_write}
use rv32i.Device.Access.Laws.{IsInside, map_write-eq}
use rv32i.Device.Access.Registers.{IsDevice, device-IsInside}
use rv32i.AbstractMachine.{serial_port, outb, putch, putstr}

-- The serial port is registered at the address that the guest's programs use.
pub record HasSerial (d : Devices) : Type 0 where
  pub map : IoMap
  pub found : find_map d.mmio_maps serial_port ≡ some map
  pub low : map.low ≡ serial_port
  pub device : IsDevice d map serial_io_handler d.serial_base 8

-- The characters of a C string, its terminator left out.
abbrev pub AreChars : List ℕ → Type 0
AreChars [] = Unit
AreChars (c ∷ s) = (0 < c) × (c < 256) × AreChars s

-- The devices behind a character.
abbrev shown : ℕ → Devices → Devices
shown ch d = record d {
  io_space = store_bytes 1 d.io_space d.serial_base ch;
  output = ch ∷ d.output;
}

serial-shown :
    (ch : ℕ) (d : Devices) (n at w : ℕ)
    → n ≡ 0
    → at ≡ d.serial_base
    → w ≡ ch
    → ch < 256
    → serial_handler n 1 true (record d { io_space = store_bytes 1 d.io_space at w })
      ≡ ok (shown ch d)
unfolding serial_handler serial_putc store_bytes
serial-shown ch d n at w start place word lt =
    rw (start, place, word) (ap (λ c. ok (record (shown ch d) { output = c ∷ d.output })) stored)
  where
    stored : store_bytes 1 d.io_space d.serial_base ch d.serial_base ≡ ch
    stored = ground arith

-- What the serial port has put out stays as it is, and the string comes behind it.
pub record IsPrinted (s : List ℕ) (d d' : Devices) : Type 0 where
  pub output : d'.output ≡ reverse_aux s d.output
  pub serial : HasSerial d'

shown-HasSerial : (ch : ℕ) (d : Devices) → HasSerial d → HasSerial (shown ch d)
shown-HasSerial ch d h = record {
  map = h.map;
  found = h.found;
  low = h.low;
  device = record {
    handler = h.device.handler;
    space = h.device.space;
    last = h.device.last;
    words = h.device.words;
    room = h.device.room;
  };
}

module _ (clock : ℕ → ℕ) where
  putch-shown :
      (ch : ℕ) (m : Machine) (d : Devices)
      → ch < 256
      → HasSerial d
      → putch clock ch (m, d) ≡ ok (m, shown ch d)
  unfolding putch outb bus_write mmio_write in_pmem host_len invoke_callback
  putch-shown ch m d lt h = ap onto_bus written
    where
      onto_bus : Outcome Devices → Outcome (Machine × Devices)
      onto_bus o = and_then o λ d'. ok (m, d')

      k : IsInside h.map serial_port 1
      k =
          device-IsInside h.device serial_port 1 refl (omega arith) (omega (arith, h.low))
            (omega (arith, h.low))

      written :
          map_write clock serial_port 1 (ch % 256) (find_map d.mmio_maps serial_port) d
          ≡ ok (shown ch d)
      written =
          ap (λ f. map_write clock serial_port 1 (ch % 256) f d) h.found
          ∙ map_write-eq k clock (ch % 256) d
          ∙ ap
              (λ c. invoke_callback clock c (serial_port - h.map.low) 1 true (record d {
                io_space =
                    store_bytes 1 d.io_space (h.map.space + (serial_port - h.map.low)) (ch % 256);
              }))
              h.device.handler
          ∙ serial-shown ch d _ _ _ (omega (arith, h.low)) (omega (arith, h.low, h.device.space))
              (omega arith) lt

  -- On devices whose serial port is registered at the address of the guest's programs, printing a
  -- string without a terminator in it succeeds, leaves the guest's machine as it is, puts the string
  -- behind what the serial port has put out, and keeps the port registered.
  pub putstr-IsPrinted :
      (s : List ℕ) (m : Machine) (d : Devices)
      → AreChars s
      → HasSerial d
      → (d' : Devices) × (putstr clock s (m, d) ≡ ok (m, d')) × IsPrinted s d d'
  unfolding putstr
  putstr-IsPrinted [] m d cs h = (d, refl, record { output = refl; serial = h })
  putstr-IsPrinted (c ∷ s) m d (pos, lt, cs) h =
      let (d', e, p) = putstr-IsPrinted s m (shown c d) cs (shown-HasSerial c d h) in
      let begun : (c == 0) ≡ false = ground (arith, pos) in
      (d', rw (begun, putch-shown c m d lt h) e, record { output = p.output; serial = p.serial })
