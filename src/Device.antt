-- ===== src/Device.antt =====
-- The devices of ysyx-workbench/nemu/src/device, in the configuration with CONFIG_DEVICE: the state
-- that their files keep. io_space is a table of bytes, and a pointer into it is an offset. A callback
-- is the name of a handler.
pub mod Keyboard
pub mod Handlers
pub mod Access
pub mod Setup
pub mod Update
use rv32i.Base.{ℕ, Bool, List, Option}

pub data Callback : Type 0 where
  serial_io_handler rtc_io_handler i8042_data_io_handler : Callback

pub record IoMap : Type 0 where
  pub name : List ℕ
  pub low : ℕ
  pub high : ℕ
  pub space : ℕ
  pub callback : Option Callback

-- key_queue, key_f and key_r of keyboard.c.
pub record KeyQueue : Type 0 where
  pub key_queue : ℕ → ℕ
  pub key_f : ℕ
  pub key_r : ℕ

-- The handlers that alarm.c calls.
pub data AlarmHandler : Type 0 where
  timer_intr : AlarmHandler

-- The maps are those of the first nr_map places, in order. `output` has the characters that the
-- serial port has put out, the last one first; `readings` counts the calls of get_time_internal.
pub record Devices : Type 0 where
  pub io_space : ℕ → ℕ
  pub p_space : ℕ
  pub mmio_maps : List IoMap
  pub pio_maps : List IoMap
  pub serial_base : ℕ
  pub rtc_port_base : ℕ
  pub i8042_data_port_base : ℕ
  pub keys : KeyQueue
  pub output : List ℕ
  pub handlers : List AlarmHandler
  pub boot_time : ℕ
  pub readings : ℕ
  pub last : ℕ
