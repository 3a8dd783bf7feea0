-- ===== src/AbstractMachine/Ioe.antt =====
-- The input and output of the abstract machine on NEMU: the register numbers of
-- ysyx-workbench/abstract-machine/am/include/amdev.h and the handlers of src/platform/nemu/ioe. A
-- buffer is the table of the fields of the register's struct, by their places in it.
use rv32i.Base.{
  ℕ, zero, suc, ◌+◌, ◌==◌, if◌then◌else◌, ltb, List, [], ◌∷◌, codes, Option, none, some, Outcome,
  ok, fail, host_overrun, and_then,
}
use rv32i.Machine.{update}
use rv32i.AbstractMachine.{Guest, vgactl_addr, outl, panic, panic_place}

abbrev pub Buffer : Type 0
Buffer = ℕ → ℕ

abbrev pub am_uart_config : ℕ
am_uart_config = 1

abbrev pub am_timer_config : ℕ
am_timer_config = 4

abbrev pub am_timer_rtc : ℕ
am_timer_rtc = 5

abbrev pub am_timer_uptime : ℕ
am_timer_uptime = 6

abbrev pub am_input_config : ℕ
am_input_config = 7

abbrev pub am_input_keybrd : ℕ
am_input_keybrd = 8

abbrev pub am_gpu_config : ℕ
am_gpu_config = 9

abbrev pub am_gpu_status : ℕ
am_gpu_status = 10

abbrev pub am_gpu_fbdraw : ℕ
am_gpu_fbdraw = 11

abbrev pub am_audio_config : ℕ
am_audio_config = 14

abbrev pub am_audio_ctrl : ℕ
am_audio_ctrl = 15

abbrev pub am_audio_status : ℕ
am_audio_status = 16

abbrev pub am_audio_play : ℕ
am_audio_play = 17

abbrev pub am_disk_config : ℕ
am_disk_config = 18

abbrev pub am_disk_status : ℕ
am_disk_status = 19

abbrev pub am_disk_blkio : ℕ
am_disk_blkio = 20

abbrev pub am_net_config : ℕ
am_net_config = 21

-- present, has_rtc
unfoldable timer_config : Buffer → Buffer
timer_config cfg = update (update cfg 0 1) 1 1

-- year, month, day, hour, minute, second
unfoldable pub timer_rtc : Buffer → Buffer
timer_rtc rtc = update (update (update (update (update (update rtc 5 0) 4 0) 3 0) 2 0) 1 0) 0 1900

-- us
unfoldable pub timer_uptime : Buffer → Buffer
timer_uptime uptime = update uptime 0 0

unfoldable input_config : Buffer → Buffer
input_config cfg = update cfg 0 1

abbrev am_key_none : ℕ
am_key_none = 0

-- keydown, keycode
unfoldable pub input_keybrd : Buffer → Buffer
input_keybrd kbd = update (update kbd 0 0) 1 am_key_none

-- present, has_accel, width, height, vmemsz
unfoldable gpu_config : Buffer → Buffer
gpu_config cfg = update (update (update (update (update cfg 0 1) 1 0) 2 0) 3 0) 4 0

unfoldable gpu_status : Buffer → Buffer
gpu_status status = update status 0 1

unfoldable uart_config : Buffer → Buffer
uart_config cfg = update cfg 0 0

unfoldable audio_config : Buffer → Buffer
audio_config cfg = update cfg 0 0

unfoldable audio_ctrl : Buffer → Buffer
audio_ctrl ctrl = ctrl

unfoldable audio_status : Buffer → Buffer
audio_status stat = update stat 0 0

unfoldable audio_play : Buffer → Buffer
audio_play ctl = ctl

unfoldable disk_config : Buffer → Buffer
disk_config cfg = update cfg 0 0

unfoldable disk_status : Buffer → Buffer
disk_status stat = stat

unfoldable disk_blkio : Buffer → Buffer
disk_blkio io = io

unfoldable net_config : Buffer → Buffer
net_config cfg = update cfg 0 0

abbrev pub Handler : Type 0
Handler = Buffer → Guest → Outcome (Buffer × Guest)

-- A handler that only writes its buffer.
abbrev pub writes : (Buffer → Buffer) → Handler
writes f buf g = ok (f buf, g)

abbrev pub Lut : Type 0
Lut = ℕ → Option Handler

abbrev pub lut_length : ℕ
lut_length = 128

-- A designated initializer: the places that it does not name are null.
unfoldable pub designated : List (ℕ × Handler) → Lut
designated [] i = none
designated ((reg, h) ∷ entries) i = if i == reg then some h else designated entries i

-- The panic of `fail` stands in line 47.
abbrev pub fail_line : List ℕ
fail_line = codes "47"

-- if (!lut[i]) lut[i] = fail, with the place's old content.
unfoldable pub fill_place : Option Handler → ℕ → Handler → Lut → Lut
fill_place none i h lut = update lut i (some h)
fill_place (some f) i h lut = lut

-- The loop of ioe_init, from the register `i`.
unfoldable pub fill_lut : ℕ → ℕ → Handler → Lut → Lut
unfolding fill_place
fill_lut zero i h lut = lut
fill_lut (suc n) i h lut = fill_lut n (i + 1) h (fill_place (lut i) i h lut)

-- `file` is __FILE__ in ioe.c.
module _ (clock : ℕ → ℕ) (trap_pc : ℕ) (file : List ℕ) where
  -- sync is the field at place 5.
  unfoldable pub gpu_fbdraw : Handler
  unfolding outl
  gpu_fbdraw ctl g =
      if ctl 5 == 0
      then ok (ctl, g)
      else and_then (outl clock (vgactl_addr + 4) 1 g) λ g'. ok (ctl, g')

  unfoldable pub fail_handler : Handler
  unfolding panic
  fail_handler buf g =
      and_then
        (panic clock trap_pc (codes "access nonexist register") (panic_place file fail_line) g)
        λ g'. ok (buf, g')

  unfoldable pub entries : List (ℕ × Handler)
  unfolding timer_config timer_rtc timer_uptime input_config input_keybrd gpu_config gpu_fbdraw
      gpu_status uart_config audio_config audio_ctrl audio_status audio_play disk_config disk_status
      disk_blkio net_config
  entries =
      (am_timer_config, writes timer_config)
      ∷ (am_timer_rtc, writes timer_rtc)
      ∷ (am_timer_uptime, writes timer_uptime)
      ∷ (am_input_config, writes input_config)
      ∷ (am_input_keybrd, writes input_keybrd)
      ∷ (am_gpu_config, writes gpu_config)
      ∷ (am_gpu_fbdraw, gpu_fbdraw)
      ∷ (am_gpu_status, writes gpu_status)
      ∷ (am_uart_config, writes uart_config)
      ∷ (am_audio_config, writes audio_config)
      ∷ (am_audio_ctrl, writes audio_ctrl)
      ∷ (am_audio_status, writes audio_status)
      ∷ (am_audio_play, writes audio_play)
      ∷ (am_disk_config, writes disk_config)
      ∷ (am_disk_status, writes disk_status)
      ∷ (am_disk_blkio, writes disk_blkio)
      ∷ (am_net_config, writes net_config)
      ∷ []

  unfoldable pub initial_lut : Lut
  unfolding designated entries
  initial_lut = designated entries

  -- The init functions of the GPU, the timer and the sound card are empty.
  unfoldable pub ioe_init : Lut → Lut
  unfolding fill_lut fail_handler
  ioe_init lut = fill_lut lut_length 0 fail_handler lut

-- The call of a place of the table; a null place is undefined in C.
unfoldable pub call_handler : Option Handler → Handler
call_handler none buf g = fail host_overrun
call_handler (some h) buf g = h buf g

-- A register number is not negative, and one behind the table is undefined in C.
unfoldable pub ioe_read : ℕ → Lut → Handler
unfolding call_handler
ioe_read reg lut buf g =
    if ltb reg lut_length then call_handler (lut reg) buf g else fail host_overrun

unfoldable pub ioe_write : ℕ → Lut → Handler
unfolding call_handler
ioe_write reg lut buf g =
    if ltb reg lut_length then call_handler (lut reg) buf g else fail host_overrun
