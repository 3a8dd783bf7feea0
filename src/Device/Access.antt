-- ===== src/Device/Access.antt =====
-- map_read and map_write of ysyx-workbench/nemu/src/device/io/map.c, the bus interfaces of mmio.c and
-- port-io.c, and paddr_read and paddr_write of src/memory/paddr.c with CONFIG_DEVICE.
pub mod Laws
pub mod Registers
use rv32i.Base.{
  ℕ, ◌+◌, ◌-◌, ◌*◌, Bool, true, false, ◌==◌, ◌&&◌, ◌||◌, not, if◌then◌else◌, ltb, leb, List, [],
  ◌∷◌, Option, none, some, Outcome, ok, fail, assertion, host_overrun, and_then,
}
use rv32i.Word.{sub32}
use rv32i.Machine.{Machine}
use rv32i.Memory.{host_len, load_bytes, store_bytes, in_pmem, pmem_read, pmem_write}
use rv32i.Device.{Callback, IoMap, Devices}
use rv32i.Device.Handlers.{invoke_callback}

abbrev pub io_space_max : ℕ
io_space_max = 32 * 1024 * 1024

abbrev pub port_io_space_max : ℕ
port_io_space_max = 65535

unfoldable pub map_inside : IoMap → ℕ → Bool
map_inside map addr = leb map.low addr && leb addr map.high

-- find_mapid_by_addr, with the map in place of its index; `none` for -1. difftest_skip_ref does
-- nothing without CONFIG_DIFFTEST.
unfoldable pub find_map : List IoMap → ℕ → Option IoMap
unfolding map_inside
find_map [] addr = none
find_map (m ∷ maps) addr = if map_inside m addr then some m else find_map maps addr

-- check_bound, with the map that it has found good.
unfoldable pub check_bound : Option IoMap → ℕ → Outcome IoMap
unfolding map_inside
check_bound none addr = fail assertion
check_bound (some map) addr = if map_inside map addr then ok map else fail assertion

-- host_read and host_write on io_space.
unfoldable pub space_read : ℕ → ℕ → Devices → Outcome ℕ
unfolding host_len load_bytes
space_read off len d =
    if host_len len
    then (if leb (off + len) io_space_max
        then ok (load_bytes len d.io_space off)
        else fail host_overrun)
    else fail assertion

unfoldable pub space_write : ℕ → ℕ → ℕ → Devices → Outcome Devices
unfolding host_len store_bytes
space_write off len word d =
    if host_len len
    then (if leb (off + len) io_space_max
        then ok (record d { io_space = store_bytes len d.io_space off word })
        else fail host_overrun)
    else fail assertion

abbrev pub is_length : ℕ → Bool
is_length len = leb 1 len && leb len 8

module _ (clock : ℕ → ℕ) where
  unfoldable pub map_read : ℕ → ℕ → Option IoMap → Devices → Outcome (ℕ × Devices)
  unfolding check_bound sub32 invoke_callback space_read
  map_read addr len map d =
      if is_length len
      then (and_then (check_bound map addr) λ m.
          and_then (invoke_callback clock m.callback (sub32 addr m.low) len false d)
            λ d'. and_then (space_read (m.space + sub32 addr m.low) len d') λ ret. ok (ret, d'))
      else fail assertion

  unfoldable pub map_write : ℕ → ℕ → ℕ → Option IoMap → Devices → Outcome Devices
  unfolding check_bound sub32 invoke_callback space_write
  map_write addr len word map d =
      if is_length len
      then (and_then (check_bound map addr) λ m.
          and_then (space_write (m.space + sub32 addr m.low) len word d)
            λ d'. invoke_callback clock m.callback (sub32 addr m.low) len true d')
      else fail assertion

  -- find_map is fetch_mmio_map here.
  unfoldable pub mmio_read : ℕ → ℕ → Devices → Outcome (ℕ × Devices)
  unfolding find_map map_read
  mmio_read addr len d = map_read addr len (find_map d.mmio_maps addr) d

  unfoldable pub mmio_write : ℕ → ℕ → ℕ → Devices → Outcome Devices
  unfolding find_map map_write
  mmio_write addr len word d = map_write addr len word (find_map d.mmio_maps addr) d

  -- addr + len - 1 is an int; a length of 0 at port 0 passes here and fails in map_read.
  unfoldable pub pio_read : ℕ → ℕ → Devices → Outcome (ℕ × Devices)
  unfolding find_map map_read
  pio_read addr len d =
      if leb (addr + len) port_io_space_max
      then map_read addr len (find_map d.pio_maps addr) d
      else fail assertion

  unfoldable pub pio_write : ℕ → ℕ → ℕ → Devices → Outcome Devices
  unfolding find_map map_write
  pio_write addr len word d =
      if leb (addr + len) port_io_space_max
      then map_write addr len word (find_map d.pio_maps addr) d
      else fail assertion

  -- paddr_read and paddr_write with CONFIG_DEVICE.
  unfoldable pub bus_read : ℕ → ℕ → Machine → Devices → Outcome (ℕ × Machine × Devices)
  unfolding in_pmem pmem_read mmio_read
  bus_read addr len m d =
      if in_pmem addr
      then and_then (pmem_read addr len m) (λ (v, m'). ok (v, m', d))
      else and_then (mmio_read addr len d) (λ (v, d'). ok (v, m, d'))

  unfoldable pub bus_write : ℕ → ℕ → ℕ → Machine → Devices → Outcome (Machine × Devices)
  unfolding in_pmem pmem_write mmio_write
  bus_write addr len word m d =
      if in_pmem addr
      then and_then (pmem_write addr len word m) (λ (_, m'). ok (m', d))
      else and_then (mmio_write addr len word d) (λ d'. ok (m, d'))
