-- ===== src/Device/Handlers.antt =====
-- The callbacks of serial.c, timer.c and keyboard.c of ysyx-workbench/nemu/src/device, and get_time
-- of src/utils/timer.c. The host's clock is a parameter: its k-th reading.
use rv32i.Base.{
  ℕ, ◌+◌, ◌-◌, ◌/◌, ◌%◌, ◌^◌, Bool, ◌==◌, ◌&&◌, ◌||◌, not, if◌then◌else◌, ◌∷◌, Option, none, some,
  Outcome, ok, fail, assertion,
}
use rv32i.Word.{u32, u64}
use rv32i.Memory.{store_bytes}
use rv32i.Device.{Callback, serial_io_handler, rtc_io_handler, i8042_data_io_handler, Devices}
use rv32i.Device.Keyboard.{key_dequeue}

unfoldable pub serial_putc : ℕ → Devices → Devices
serial_putc ch d = record d { output = ch ∷ d.output }

unfoldable pub serial_handler : ℕ → ℕ → Bool → Devices → Outcome Devices
unfolding serial_putc
serial_handler offset len is_write d =
    if not (len == 1)
    then fail assertion
    else (if offset == 0
        then (if is_write then ok (serial_putc (d.io_space d.serial_base) d) else fail assertion)
        else fail assertion)

module _ (clock : ℕ → ℕ) where
  -- get_time reads the clock once more for the time of the first call.
  unfoldable pub get_time : Devices → ℕ × Devices
  get_time d =
      let booted = record d { boot_time = clock d.readings % u64; readings = d.readings + 1 } in
      let d' = if d.boot_time == 0 then booted else d in
      (
        (clock d'.readings % u64 + u64 - d'.boot_time) % u64,
        record d' { readings = d'.readings + 1 },
      )

  -- rtc_port_base[0] and rtc_port_base[1].
  unfoldable pub latch_time : ℕ → Devices → Devices
  latch_time us d = record d {
    io_space =
        store_bytes 4 (store_bytes 4 d.io_space d.rtc_port_base (us % u32)) (d.rtc_port_base + 4)
          (us / 2 ^ 32);
  }

  unfoldable pub rtc_handler : ℕ → ℕ → Bool → Devices → Outcome Devices
  unfolding get_time latch_time
  rtc_handler offset len is_write d =
      if offset == 0 || offset == 4
      then (if not is_write && offset == 4
          then (let (us, d') = get_time d in ok (latch_time us d'))
          else ok d)
      else fail assertion

  unfoldable pub i8042_handler : ℕ → ℕ → Bool → Devices → Outcome Devices
  unfolding key_dequeue
  i8042_handler offset len is_write d =
      if is_write
      then fail assertion
      else (if offset == 0
          then (let (key, q) = key_dequeue d.keys in
              ok (record d {
                io_space = store_bytes 4 d.io_space d.i8042_data_port_base key;
                keys = q;
              }))
          else fail assertion)

  unfoldable pub run_callback : Callback → ℕ → ℕ → Bool → Devices → Outcome Devices
  unfolding serial_handler rtc_handler i8042_handler
  run_callback serial_io_handler = serial_handler
  run_callback rtc_io_handler = rtc_handler
  run_callback i8042_data_io_handler = i8042_handler

  unfoldable pub invoke_callback : Option Callback → ℕ → ℕ → Bool → Devices → Outcome Devices
  unfolding run_callback
  invoke_callback none offset len is_write d = ok d
  invoke_callback (some c) offset len is_write d = run_callback c offset len is_write d
