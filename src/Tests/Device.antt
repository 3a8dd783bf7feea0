-- ===== src/Tests/Device.antt =====
-- The devices of init_device, with the addresses of Kconfig, and the theorems about them.
use rv32i.Base.{
  ℕ, ◌+◌, ◌-◌, ◌*◌, ◌%◌, ◌^◌, ◌<◌, ◌≤◌, ◌≡◌, ◌⊎◌, ◌↔◌, refl, arith, false, inl, inr, [], ◌∷◌, ◌++◌,
  codes, none, some, ok, fail, assertion,
}
use rv32i.Memory.{in_pmem, store_bytes, host_len}
use rv32i.Device.{
  serial_io_handler, rtc_io_handler, i8042_data_io_handler, IoMap, KeyQueue, Devices, timer_intr,
}
use rv32i.Device.Keyboard.{key_queue_len, key_enqueue, key_dequeue}
use rv32i.Device.Keyboard.Fifo.{IsQueue, pop_front, key_enqueue-append, key_dequeue-pop_front}
use rv32i.Device.Handlers.{get_time}
use rv32i.Device.Access.{find_map, map_read, map_write, mmio_read, bus_read}
use rv32i.Device.Access.Laws.{IsInside, map_read-map_write}
use rv32i.Device.Access.Registers.{bus_read-keyboard, mmio_read-time}
use rv32i.Device.Setup.{DeviceConfig, init_device, new_map, add_mmio_map}
use rv32i.Device.Setup.Disjoint.{AreMaps, IsRefused, IsIn, add_mmio_map-AreMaps, find_map_iff}
use rv32i.Tests.Riscv.{addi_machine}

abbrev kconfig : DeviceConfig
kconfig = record {
  has_port_io = false;
  serial = 0xa00003f8;
  rtc = 0xa0000048;
  i8042_data = 0xa0000060;
}

-- Two keys, the next place being 0: the queue has gone around the end of the array.
abbrev two_keys : KeyQueue
two_keys = record { key_queue = λ i. i; key_f = 1022; key_r = 0 }

abbrev off : Devices
off = record {
  io_space = λ a. 0;
  p_space = 0;
  mmio_maps = [];
  pio_maps = [];
  serial_base = 0;
  rtc_port_base = 0;
  i8042_data_port_base = 0;
  keys = two_keys;
  output = [];
  handlers = [];
  boot_time = 0;
  readings = 0;
  last = 0;
}

abbrev pub serial_map : IoMap
serial_map = record {
  name = codes "serial";
  low = 0xa00003f8;
  high = 0xa00003ff;
  space = 0;
  callback = some serial_io_handler;
}

abbrev rtc_map : IoMap
rtc_map = record {
  name = codes "rtc";
  low = 0xa0000048;
  high = 0xa000004f;
  space = 4096;
  callback = some rtc_io_handler;
}

abbrev keyboard_map : IoMap
keyboard_map = record {
  name = codes "keyboard";
  low = 0xa0000060;
  high = 0xa0000063;
  space = 8192;
  callback = some i8042_data_io_handler;
}

abbrev pub on : Devices
on = record off {
  io_space = store_bytes 4 (λ a. 0) 8192 0;
  p_space = 12288;
  mmio_maps = serial_map ∷ rtc_map ∷ keyboard_map ∷ [];
  rtc_port_base = 4096;
  i8042_data_port_base = 8192;
  handlers = timer_intr ∷ [];
}

devices_on : init_device kconfig off ≡ ok on
unfolding init_device
devices_on = refl

two_keys-IsQueue : IsQueue two_keys (1022 ∷ 1023 ∷ [])
two_keys-IsQueue = record {
  front = omega arith;
  rear = refl;
  room = omega arith;
  cells = (refl, (refl, tt));
}

key_enqueue-append_example :
    ((2 ≡ key_queue_len - 1) × (key_enqueue 7 two_keys ≡ fail assertion))
    ⊎ ((2 < key_queue_len - 1)
        × (q' : KeyQueue) × (key_enqueue 7 two_keys ≡ ok q')
        × IsQueue q' (1022 ∷ 1023 ∷ 7 ∷ []))
key_enqueue-append_example = key_enqueue-append 7 two_keys (1022 ∷ 1023 ∷ []) two_keys-IsQueue

key_dequeue-pop_front_example :
    ((key_dequeue two_keys).0 ≡ 1022) × IsQueue (key_dequeue two_keys).1 (1023 ∷ [])
unfolding pop_front
key_dequeue-pop_front_example = key_dequeue-pop_front two_keys (1022 ∷ 1023 ∷ []) two_keys-IsQueue

-- A map of 4 KB without a handler.
abbrev plain : IoMap
plain = record {
  name = codes "vmem";
  low = 0xa1000000;
  high = 0xa1000fff;
  space = 12288;
  callback = none;
}

plain-IsInside : IsInside plain 0xa1000004 2
unfolding host_len
plain-IsInside = record {
  low = omega arith;
  high = omega arith;
  word = omega arith;
  size = refl;
  room = omega arith;
}

map_read-map_write_example :
    (d' : Devices) × (map_write (λ k. k) 0xa1000004 2 0x12345 (some plain) on ≡ ok d')
    × (map_read (λ k. k) 0xa1000004 2 (some plain) d' ≡ ok (0x12345 % 256 ^ 2, d'))
map_read-map_write_example = map_read-map_write plain-IsInside (λ k. k) 0x12345 on refl

on-AreMaps : AreMaps on.mmio_maps
unfolding in_pmem
on-AreMaps = record {
  apart = ((inr (omega arith), (inr (omega arith), tt)), ((inl (omega arith), tt), (tt, tt)));
  outside = (refl, refl, (refl, refl, (refl, refl, tt)));
  few = omega arith;
}

add_mmio_map-AreMaps_example :
    let m = new_map (codes "disk") 0xa0000300 12288 8 (some serial_io_handler) in
    ((d' : Devices) × (add_mmio_map (codes "disk") 0xa0000300 12288 8 (some serial_io_handler) on
        ≡ ok d')
      × (d'.mmio_maps ≡ on.mmio_maps ++ (m ∷ []))
      × AreMaps d'.mmio_maps)
    ⊎ ((add_mmio_map (codes "disk") 0xa0000300 12288 8 (some serial_io_handler) on ≡ fail assertion)
        × IsRefused m on.mmio_maps)
add_mmio_map-AreMaps_example =
    add_mmio_map-AreMaps (codes "disk") 0xa0000300 12288 8 (some serial_io_handler) on on-AreMaps

find_map_iff_example :
    (find_map on.mmio_maps 0xa000004c ≡ some rtc_map)
    ↔ (IsIn rtc_map on.mmio_maps × (0xa0000048 ≤ 0xa000004c) × (0xa000004c ≤ 0xa000004f))
find_map_iff_example = find_map_iff on.mmio_maps 0xa000004c rtc_map on-AreMaps.apart

bus_read-keyboard_example :
    (d' : Devices) × (bus_read (λ k. k) 0xa0000060 4 addi_machine on
      ≡ ok (1022 % 256 ^ 4, addi_machine, d'))
    × IsQueue d'.keys (1023 ∷ [])
unfolding in_pmem find_map pop_front
bus_read-keyboard_example =
    bus_read-keyboard (λ k. k) addi_machine on keyboard_map (1022 ∷ 1023 ∷ []) refl refl
      (record {
        handler = refl;
        space = refl;
        last = refl;
        words = omega arith;
        room = omega arith;
      })
      two_keys-IsQueue

mmio_read-time_example :
    (d' : Devices) × (upper : ℕ) × (lower : ℕ) × (mmio_read (λ k. k) 0xa000004c 4 on
      ≡ ok (upper, d'))
    × (mmio_read (λ k. k) 0xa0000048 4 d' ≡ ok (lower, d'))
    × (upper * 2 ^ 32 + lower ≡ (get_time (λ k. k) on).0)
unfolding find_map
mmio_read-time_example =
    mmio_read-time (λ k. k) on rtc_map refl refl
      (record {
        handler = refl;
        space = refl;
        last = refl;
        words = omega arith;
        room = omega arith;
      })
