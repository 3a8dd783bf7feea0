-- ===== src/Device/Update.antt =====
-- device_update and the alarm handlers: ysyx-workbench/nemu/src/device/device.c, alarm.c and intr.c.
-- The events that SDL_PollEvent hands out are a list.
use rv32i.Base.{
  ℕ, ◌+◌, ◌-◌, ◌/◌, ◌%◌, Bool, true, false, if◌then◌else◌, ltb, List, [], ◌∷◌, Outcome, ok,
  and_then,
}
use rv32i.Word.{u64}
use rv32i.Machine.{Machine, quit}
use rv32i.Cpu.{with_state}
use rv32i.Device.{Devices, AlarmHandler, timer_intr}
use rv32i.Device.Keyboard.{send_key}
use rv32i.Device.Handlers.{get_time}

abbrev pub timer_hz : ℕ
timer_hz = 60

pub data Event : Type 0 where
  quit_event : Event
  keydown : ℕ → Event
  keyup : ℕ → Event
  other : Event

abbrev key_sent : (ℕ → ℕ) → ℕ → Bool → Machine → Devices → Outcome (Machine × Devices)
key_sent keymap k down m d =
    and_then (send_key keymap m.nemu_state.state k down d.keys) λ q. ok (m, record d { keys = q })

-- The switch on the type of an event; a scancode is cut to uint8_t.
unfoldable pub handle_event : (ℕ → ℕ) → Event → Machine → Devices → Outcome (Machine × Devices)
unfolding with_state send_key
handle_event keymap quit_event m d = ok (with_state quit m, d)
handle_event keymap (keydown k) m d = key_sent keymap (k % 256) true m d
handle_event keymap (keyup k) m d = key_sent keymap (k % 256) false m d
handle_event keymap other m d = ok (m, d)

unfoldable pub poll_events : (ℕ → ℕ) → List Event → Machine → Devices → Outcome (Machine × Devices)
unfolding handle_event
poll_events keymap [] m d = ok (m, d)
poll_events keymap (e ∷ es) m d =
    and_then (handle_event keymap e m d) λ (m', d'). poll_events keymap es m' d'

-- Without CONFIG_HAS_VGA.
unfoldable pub device_update :
    (ℕ → ℕ) → (ℕ → ℕ) → List Event → Machine → Devices → Outcome (Machine × Devices)
unfolding get_time poll_events
device_update clock keymap es m d =
    let (now, d') = get_time clock d in
    if ltb ((now + u64 - d'.last) % u64) (1000000 / timer_hz)
    then ok (m, d')
    else poll_events keymap es m (record d' { last = now })

-- dev_raise_intr does nothing.
unfoldable pub run_alarm : AlarmHandler → Machine → Machine
run_alarm timer_intr m = m

unfoldable pub alarm_sig_handler : List AlarmHandler → Machine → Machine
unfolding run_alarm
alarm_sig_handler [] m = m
alarm_sig_handler (h ∷ hs) m = alarm_sig_handler hs (run_alarm h m)
