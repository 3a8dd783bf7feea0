-- ===== src/Device/Keyboard.antt =====
-- The key queue and the key map of ysyx-workbench/nemu/src/device/keyboard.c. SDL's scancodes are a
-- parameter.
pub mod Fifo
use rv32i.Base.{
  ℕ, zero, suc, ◌+◌, ◌%◌, Bool, true, false, ◌==◌, ◌&&◌, not, if◌then◌else◌, List, [], ◌∷◌, codes,
  Outcome, ok, fail, assertion, bit_or,
}
use rv32i.Machine.{RunState, is_running, update}
use rv32i.Device.{KeyQueue, Devices}

abbrev pub key_queue_len : ℕ
key_queue_len = 1024

abbrev pub keydown_mask : ℕ
keydown_mask = 0x8000

abbrev pub nemu_key_none : ℕ
nemu_key_none = 0

-- NEMU_KEYS, in order: the first key has the number 1.
unfoldable pub nemu_keys : List (List ℕ)
nemu_keys =
    codes "ESCAPE"
    ∷ codes "F1"
    ∷ codes "F2"
    ∷ codes "F3"
    ∷ codes "F4"
    ∷ codes "F5"
    ∷ codes "F6"
    ∷ codes "F7"
    ∷ codes "F8"
    ∷ codes "F9"
    ∷ codes "F10"
    ∷ codes "F11"
    ∷ codes "F12"
    ∷ codes "GRAVE"
    ∷ codes "1"
    ∷ codes "2"
    ∷ codes "3"
    ∷ codes "4"
    ∷ codes "5"
    ∷ codes "6"
    ∷ codes "7"
    ∷ codes "8"
    ∷ codes "9"
    ∷ codes "0"
    ∷ codes "MINUS"
    ∷ codes "EQUALS"
    ∷ codes "BACKSPACE"
    ∷ codes "TAB"
    ∷ codes "Q"
    ∷ codes "W"
    ∷ codes "E"
    ∷ codes "R"
    ∷ codes "T"
    ∷ codes "Y"
    ∷ codes "U"
    ∷ codes "I"
    ∷ codes "O"
    ∷ codes "P"
    ∷ codes "LEFTBRACKET"
    ∷ codes "RIGHTBRACKET"
    ∷ codes "BACKSLASH"
    ∷ codes "CAPSLOCK"
    ∷ codes "A"
    ∷ codes "S"
    ∷ codes "D"
    ∷ codes "F"
    ∷ codes "G"
    ∷ codes "H"
    ∷ codes "J"
    ∷ codes "K"
    ∷ codes "L"
    ∷ codes "SEMICOLON"
    ∷ codes "APOSTROPHE"
    ∷ codes "RETURN"
    ∷ codes "LSHIFT"
    ∷ codes "Z"
    ∷ codes "X"
    ∷ codes "C"
    ∷ codes "V"
    ∷ codes "B"
    ∷ codes "N"
    ∷ codes "M"
    ∷ codes "COMMA"
    ∷ codes "PERIOD"
    ∷ codes "SLASH"
    ∷ codes "RSHIFT"
    ∷ codes "LCTRL"
    ∷ codes "APPLICATION"
    ∷ codes "LALT"
    ∷ codes "SPACE"
    ∷ codes "RALT"
    ∷ codes "RCTRL"
    ∷ codes "UP"
    ∷ codes "DOWN"
    ∷ codes "LEFT"
    ∷ codes "RIGHT"
    ∷ codes "INSERT"
    ∷ codes "DELETE"
    ∷ codes "HOME"
    ∷ codes "END"
    ∷ codes "PAGEUP"
    ∷ codes "PAGEDOWN"
    ∷ []

-- SDL_KEYMAP over the keys from number `i` on.
unfoldable pub map_keys : (List ℕ → ℕ) → List (List ℕ) → ℕ → (ℕ → ℕ) → ℕ → ℕ
map_keys scancode [] i keymap = keymap
map_keys scancode (k ∷ ks) i keymap = map_keys scancode ks (i + 1) (update keymap (scancode k) i)

unfoldable pub init_keymap : (List ℕ → ℕ) → ℕ → ℕ
unfolding map_keys nemu_keys
init_keymap scancode = map_keys scancode nemu_keys 1 (λ _. 0)

unfoldable pub key_enqueue : ℕ → KeyQueue → Outcome KeyQueue
key_enqueue am_scancode q =
    let key_r = (q.key_r + 1) % key_queue_len in
    if key_r == q.key_f
    then fail assertion
    else ok (record q { key_queue = update q.key_queue q.key_r am_scancode; key_r = key_r })

unfoldable pub key_dequeue : KeyQueue → ℕ × KeyQueue
key_dequeue q =
    if q.key_f == q.key_r
    then (nemu_key_none, q)
    else (q.key_queue q.key_f, record q { key_f = (q.key_f + 1) % key_queue_len })

-- The state of the run decides whether a key is taken.
unfoldable pub send_key : (ℕ → ℕ) → RunState → ℕ → Bool → KeyQueue → Outcome KeyQueue
unfolding key_enqueue
send_key keymap st scancode is_keydown q =
    if is_running st && not (keymap scancode == nemu_key_none)
    then key_enqueue (bit_or (keymap scancode) (if is_keydown then keydown_mask else 0)) q
    else ok q
