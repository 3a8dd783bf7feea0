-- ===== src/Device/Access/Registers.antt =====
-- The keyboard's and the clock's registers, read over the bus.
use rv32i.Base.{
  ℕ, ◌+◌, ◌-◌, ◌*◌, ◌/◌, ◌%◌, ◌^◌, ◌≤◌, ◌<◌, ◌≡◌, refl, arith, false, true, ◌==◌, List, ap, ◌∙◌,
  some, Outcome, ok, Bool-cases, inl, inr, and_then,
}
use rv32i.Word.{u32, u64}
use rv32i.Machine.{Machine}
use rv32i.Memory.{host_len, load_bytes, store_bytes, in_pmem}
use rv32i.Memory.Access.{load-store_bytes, load_bytes-congr, store_bytes-other}
use rv32i.Device.{Callback, rtc_io_handler, i8042_data_io_handler, IoMap, Devices}
use rv32i.Device.Keyboard.Fifo.{IsQueue, pop_front, key_dequeue-pop_front}
use rv32i.Device.Keyboard.{key_dequeue}
use rv32i.Device.Handlers.{get_time, latch_time, rtc_handler, i8042_handler, invoke_callback}
use rv32i.Device.Access.{io_space_max, find_map, map_read, mmio_read, bus_read}
use rv32i.Device.Access.Laws.{IsInside, loaded, map_read-eq}

-- A map of the bus that a device has, at its own space.
pub record IsDevice (d : Devices) (m : IoMap) (c : Callback) (base len : ℕ) : Type 0 where
  pub handler : m.callback ≡ some c
  pub space : m.space ≡ base
  pub last : m.high ≡ m.low + len - 1
  pub words : m.low + len ≤ u32
  pub room : base + len ≤ io_space_max

pub device-IsInside :
    {d : Devices} {m : IoMap} {c : Callback} {base len : ℕ}
    → IsDevice d m c base len
    → (addr n : ℕ) → host_len n ≡ true
    → 1 ≤ n
    → m.low ≤ addr
    → addr + n ≤ m.low + len
    → IsInside m addr n
device-IsInside v addr n width some_byte from to = record {
  low = from;
  high = omega (arith, v.last);
  word = omega (arith, v.words);
  size = width;
  room = omega (arith, v.space, v.room);
}

four : host_len 4 ≡ true
unfolding host_len
four = refl

module _ (clock : ℕ → ℕ) where
  -- Reading the keyboard's data register over the bus takes the oldest key from the queue and returns
  -- it, or NEMU_KEY_NONE if there is none; the guest's machine stays.
  pub bus_read-keyboard :
      (machine : Machine) (d : Devices) (m : IoMap) (xs : List ℕ)
      → in_pmem m.low ≡ false
      → find_map d.mmio_maps m.low ≡ some m
      → IsDevice d m i8042_data_io_handler d.i8042_data_port_base 4
      → IsQueue d.keys xs
      → let (key, rest) = pop_front xs in
        (d' : Devices) × (bus_read clock m.low 4 machine d ≡ ok (key % 256 ^ 4, machine, d'))
        × IsQueue d'.keys rest
  unfolding bus_read mmio_read invoke_callback
  bus_read-keyboard machine d m xs out found v h =
      let (oldest, rest) = key_dequeue-pop_front d.keys xs h in
      (d', rw out (ap onto_bus read ∙ ap (λ n. ok (n % 256 ^ 4, machine, d')) oldest), rest)
    where
      key : ℕ
      key = (key_dequeue d.keys).0

      d' : Devices
      d' = record d {
        io_space = store_bytes 4 d.io_space d.i8042_data_port_base key;
        keys = (key_dequeue d.keys).1;
      }

      onto_bus : Outcome (ℕ × Devices) → Outcome (ℕ × Machine × Devices)
      onto_bus o = and_then o λ (v, d'). ok (v, machine, d')

      k : IsInside m m.low 4
      k = device-IsInside v m.low 4 four (omega arith) (omega arith) (omega arith)

      at : m.space + (m.low - m.low) ≡ d.i8042_data_port_base
      at = omega (arith, v.space)

      start : m.low - m.low ≡ 0
      start = omega arith

      read : map_read clock m.low 4 (find_map d.mmio_maps m.low) d ≡ ok (key % 256 ^ 4, d')
      read =
          ap (λ f. map_read clock m.low 4 f d) found
          ∙ map_read-eq k clock d
          ∙ ap (λ c. loaded k clock (invoke_callback clock c (m.low - m.low) 4 false d)) v.handler
          ∙ ap (λ n. loaded k clock (i8042_handler clock n 4 false d)) start
          ∙ ap (λ n. ok (load_bytes 4 d'.io_space n, d')) at
          ∙ ap (λ n. ok (n, d')) (load-store_bytes 4 d.io_space d.i8042_data_port_base key)

  -- Reading the time leaves the maps and the register's place alone.
  record IsRead (d d' : Devices) : Type 0 where
    maps : d'.mmio_maps ≡ d.mmio_maps
    place : d'.rtc_port_base ≡ d.rtc_port_base

  get_time-IsRead : (d : Devices) → IsRead d (get_time clock d).1
  unfolding get_time
  get_time-IsRead d = elim (Bool-cases (d.boot_time == 0)) [
    | inl e ↦ rw e (record { maps = refl; place = refl })
    | inr e ↦ rw e (record { maps = refl; place = refl })
  ]

  get_time-lt : (d : Devices) → (get_time clock d).0 < u64
  unfolding get_time
  get_time-lt d = omega arith

  -- The two halves of the register behind latch_time.
  latched :
      (us : ℕ) (d : Devices)
      → us < u64
      → (load_bytes 4 (latch_time clock us d).io_space (d.rtc_port_base + 4) ≡ us / 2 ^ 32)
        × (load_bytes 4 (latch_time clock us d).io_space d.rtc_port_base ≡ us % 2 ^ 32)
  unfolding latch_time
  latched us d lt = (
    load-store_bytes 4 low (d.rtc_port_base + 4) (us / 2 ^ 32) ∙ omega arith,
    load_bytes-congr 4 _ low d.rtc_port_base (λ a p q.
          store_bytes-other 4 low (d.rtc_port_base + 4) (us / 2 ^ 32) a (inl (omega arith)))
        ∙ load-store_bytes 4 d.io_space d.rtc_port_base (us % u32)
        ∙ omega arith,
  )
    where
      low : ℕ → ℕ
      low = store_bytes 4 d.io_space d.rtc_port_base (us % u32)

  -- Reading the clock's upper register and then its lower one gives the two halves of one reading of
  -- the time, that of the first access.
  pub mmio_read-time :
      (d : Devices) (m : IoMap)
      → find_map d.mmio_maps m.low ≡ some m
      → find_map d.mmio_maps (m.low + 4) ≡ some m
      → IsDevice d m rtc_io_handler d.rtc_port_base 8
      → (d' : Devices) × (upper : ℕ) × (lower : ℕ) × (mmio_read clock (m.low + 4) 4 d
          ≡ ok (upper, d'))
        × (mmio_read clock m.low 4 d' ≡ ok (lower, d'))
        × (upper * 2 ^ 32 + lower ≡ (get_time clock d).0)
  unfolding mmio_read invoke_callback latch_time
  mmio_read-time d m found₀ found₄ v = (
    d',
    us / 2 ^ 32,
    us % 2 ^ 32,
    ap (λ f. map_read clock (m.low + 4) 4 f d) found₄
        ∙ map_read-eq k₄ clock d
        ∙ ap (λ c. loaded k₄ clock (invoke_callback clock c (m.low + 4 - m.low) 4 false d))
            v.handler
        ∙ ap (λ n. loaded k₄ clock (rtc_handler clock n 4 false d)) start₄
        ∙ ap (λ n. ok (load_bytes 4 d'.io_space n, d')) at₄
        ∙ ap (λ n. ok (n, d')) halves.0,
    ap (λ ms. map_read clock m.low 4 (find_map ms m.low) d') kept.maps
        ∙ ap (λ f. map_read clock m.low 4 f d') found₀
        ∙ map_read-eq k₀ clock d'
        ∙ ap (λ c. loaded k₀ clock (invoke_callback clock c (m.low - m.low) 4 false d')) v.handler
        ∙ ap (λ n. loaded k₀ clock (rtc_handler clock n 4 false d')) start₀
        ∙ ap (λ n. ok (load_bytes 4 d'.io_space n, d')) at₀
        ∙ ap (λ n. ok (n, d')) halves.1,
    omega arith,
  )
    where
      us : ℕ
      us = (get_time clock d).0

      d₁ : Devices
      d₁ = (get_time clock d).1

      d' : Devices
      d' = latch_time clock us d₁

      kept : IsRead d d₁
      kept = get_time-IsRead d

      halves :
          (load_bytes 4 d'.io_space (d₁.rtc_port_base + 4) ≡ us / 2 ^ 32)
          × (load_bytes 4 d'.io_space d₁.rtc_port_base ≡ us % 2 ^ 32)
      halves = latched us d₁ (get_time-lt d)

      k₄ : IsInside m (m.low + 4) 4
      k₄ = device-IsInside v (m.low + 4) 4 four (omega arith) (omega arith) (omega arith)

      k₀ : IsInside m m.low 4
      k₀ = device-IsInside v m.low 4 four (omega arith) (omega arith) (omega arith)

      start₄ : m.low + 4 - m.low ≡ 4
      start₄ = omega arith

      start₀ : m.low - m.low ≡ 0
      start₀ = omega arith

      at₄ : m.space + (m.low + 4 - m.low) ≡ d₁.rtc_port_base + 4
      at₄ = omega (arith, v.space, kept.place)

      at₀ : m.space + (m.low - m.low) ≡ d₁.rtc_port_base
      at₀ = omega (arith, v.space, kept.place)
