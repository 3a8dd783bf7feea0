-- ===== src/Device/Setup.antt =====
-- Registration: new_space and init_map of ysyx-workbench/nemu/src/device/io/map.c, add_mmio_map,
-- add_pio_map, add_alarm_handle, the init functions of the devices, and init_device. The addresses of
-- the configuration are a parameter; VGA, audio, disk and SD card are configured out.
pub mod Disjoint
use rv32i.Base.{
  ℕ, ◌+◌, ◌-◌, ◌*◌, ◌/◌, ◌%◌, Bool, true, false, ◌==◌, ◌&&◌, ◌||◌, if◌then◌else◌, ltb, leb, List,
  [], ◌∷◌, ◌++◌, length, codes, Option, none, some, Outcome, ok, fail, assertion, and_then,
}
use rv32i.Word.{u32, add32, sub32}
use rv32i.Memory.{in_pmem, store_bytes}
use rv32i.Device.{
  Callback, serial_io_handler, rtc_io_handler, i8042_data_io_handler, IoMap, Devices, AlarmHandler,
  timer_intr,
}
use rv32i.Device.Keyboard.{nemu_key_none}
use rv32i.Device.Access.{io_space_max, port_io_space_max}

abbrev pub nr_map : ℕ
nr_map = 16

abbrev pub page_size : ℕ
page_size = 4096

abbrev pub max_handler : ℕ
max_handler = 8

-- The size rounded up to whole pages.
unfoldable pub page_align : ℕ → ℕ
page_align size = (size + (page_size - 1)) / page_size * page_size

-- The offset of the new space.
unfoldable pub new_space : ℕ → Devices → Outcome (ℕ × Devices)
unfolding page_align
new_space size d =
    let p_space = d.p_space + page_align size in
    if ltb p_space io_space_max
    then ok (d.p_space, record d { p_space = p_space })
    else fail assertion

-- malloc does not fail, and its bytes are whatever they are.
unfoldable pub init_map : Devices → Devices
init_map d = record d { p_space = 0 }

-- The test of the loop of add_mmio_map: the range meets a map.
unfoldable pub overlaps : ℕ → ℕ → List IoMap → Bool
overlaps left right [] = false
overlaps left right (m ∷ maps) = (leb left m.high && leb m.low right) || overlaps left right maps

abbrev pub new_map : List ℕ → ℕ → ℕ → ℕ → Option Callback → IoMap
new_map name addr space len callback = record {
  name = name;
  low = addr;
  high = sub32 (add32 addr len) 1;
  space = space;
  callback = callback;
}

-- `none` is a callback of NULL.
unfoldable pub add_mmio_map : List ℕ → ℕ → ℕ → ℕ → Option Callback → Devices → Outcome Devices
unfolding in_pmem overlaps add32 sub32
add_mmio_map name addr space len callback d =
    let m = new_map name addr space len callback in
    if ltb (length d.mmio_maps) nr_map
    then (if in_pmem m.low || in_pmem m.high
        then fail assertion
        else (if overlaps m.low m.high d.mmio_maps
            then fail assertion
            else ok (record d { mmio_maps = d.mmio_maps ++ (m ∷ []) })))
    else fail assertion

unfoldable pub add_pio_map : List ℕ → ℕ → ℕ → ℕ → Option Callback → Devices → Outcome Devices
unfolding add32 sub32
add_pio_map name addr space len callback d =
    if ltb (length d.pio_maps) nr_map
    then (if leb (addr + len) port_io_space_max
        then ok (record d { pio_maps = d.pio_maps ++ (new_map name addr space len callback ∷ []) })
        else fail assertion)
    else fail assertion

unfoldable pub add_alarm_handle : AlarmHandler → Devices → Outcome Devices
add_alarm_handle h d =
    if ltb (length d.handlers) max_handler
    then ok (record d { handlers = d.handlers ++ (h ∷ []) })
    else fail assertion

-- CONFIG_HAS_PORT_IO and the addresses of Kconfig.
pub record DeviceConfig : Type 0 where
  pub has_port_io : Bool
  pub serial : ℕ
  pub rtc : ℕ
  pub i8042_data : ℕ

module _ (c : DeviceConfig) where
  unfoldable pub add_map : List ℕ → ℕ → ℕ → ℕ → Option Callback → Devices → Outcome Devices
  unfolding add_mmio_map add_pio_map
  add_map name addr space len callback d =
      if c.has_port_io
      then add_pio_map name addr space len callback d
      else add_mmio_map name addr space len callback d

  unfoldable pub init_serial : Devices → Outcome Devices
  unfolding new_space add_map
  init_serial d = and_then (new_space 8 d) λ (base, d').
      add_map (codes "serial") c.serial base 8 (some serial_io_handler)
        (record d' { serial_base = base })

  unfoldable pub init_timer : Devices → Outcome Devices
  unfolding new_space add_map add_alarm_handle
  init_timer d = and_then (new_space 8 d) λ (base, d').
      and_then
        (add_map (codes "rtc") c.rtc base 8 (some rtc_io_handler)
          (record d' { rtc_port_base = base }))
        λ d″. add_alarm_handle timer_intr d″

  -- init_keymap fills a table of its own.
  unfoldable pub init_i8042 : Devices → Outcome Devices
  unfolding new_space add_map store_bytes
  init_i8042 d = and_then (new_space 4 d) λ (base, d').
      add_map (codes "keyboard") c.i8042_data base 4 (some i8042_data_io_handler) (record d' {
        i8042_data_port_base = base;
        io_space = store_bytes 4 d'.io_space base nemu_key_none;
      })

  -- init_device with serial port, timer and keyboard.
  unfoldable pub init_device : Devices → Outcome Devices
  unfolding init_map init_serial init_timer init_i8042
  init_device d =
      and_then (init_serial (init_map d)) λ d₁. and_then (init_timer d₁) λ d₂. init_i8042 d₂
