-- ===== src/Device/Access/Laws.antt =====
-- What an access to a device comes to: the keyboard, the clock, a map without a handler, and an
-- address that no map has.
use rv32i.Base.{
  ℕ, ◌+◌, ◌-◌, ◌%◌, ◌^◌, ◌≤◌, ◌<◌, ◌≡◌, refl, arith, true, false, leb, ap, ◌∙◌, none, some, Outcome,
  ok, fail, assertion, and_then,
}
use rv32i.Word.{u32, sub32}
use rv32i.Machine.{Machine}
use rv32i.Memory.{host_len, load_bytes, store_bytes, in_pmem}
use rv32i.Memory.Access.{load-store_bytes}
use rv32i.Device.{IoMap, Devices}
use rv32i.Device.Handlers.{invoke_callback}
use rv32i.Device.Access.{
  io_space_max, map_inside, find_map, space_read, space_write, is_length, map_read, map_write,
  bus_read, bus_write,
}

-- An address in a map, and the range of io_space that an access to it touches.
pub record IsInside (m : IoMap) (addr len : ℕ) : Type 0 where
  pub low : m.low ≤ addr
  pub high : addr ≤ m.high
  pub word : addr < u32
  pub size : host_len len ≡ true
  pub room : m.space + (addr - m.low) + len ≤ io_space_max

length-ok : (len : ℕ) → host_len len ≡ true → is_length len ≡ true
unfolding host_len
length-ok len h = ground arith

module _ {m : IoMap} {addr len : ℕ} (k : IsInside m addr len) where
  inside : map_inside m addr ≡ true
  unfolding map_inside
  inside = ground (arith, k.low, k.high)

  offset : sub32 addr m.low ≡ addr - m.low
  unfolding sub32
  offset = omega (arith, k.low, k.word)

  space_read-eq :
      (d : Devices)
      → space_read (m.space + (addr - m.low)) len d
        ≡ ok (load_bytes len d.io_space (m.space + (addr - m.low)))
  unfolding space_read
  space_read-eq d =
      let fits : leb (m.space + (addr - m.low) + len) io_space_max ≡ true =
        ground (arith, k.room) in
      rw (k.size, fits) refl

  module _ (clock : ℕ → ℕ) where
    abbrev pub loaded : Outcome Devices → Outcome (ℕ × Devices)
    loaded o = and_then o λ d. ok (load_bytes len d.io_space (m.space + (addr - m.low)), d)

    read_behind :
        (o : Outcome Devices)
        → and_then o (λ d. and_then (space_read (m.space + (addr - m.low)) len d) λ v. ok (v, d))
          ≡ loaded o
    read_behind (ok d) = ap (λ r. and_then r λ v. ok (v, d)) (space_read-eq d)
    read_behind (fail e) = refl

    -- A read runs the callback and then loads the bytes.
    pub map_read-eq :
        (d : Devices)
        → map_read clock addr len (some m) d
          ≡ loaded (invoke_callback clock m.callback (addr - m.low) len false d)
    unfolding map_read
    map_read-eq d =
        rw (length-ok len k.size, inside, offset)
          (read_behind (invoke_callback clock m.callback (addr - m.low) len false d))

    -- A write stores the bytes and then runs the callback.
    pub map_write-eq :
        (w : ℕ) (d : Devices)
        → map_write clock addr len w (some m) d
          ≡ invoke_callback clock m.callback
              (addr - m.low)
              len
              true
              (record d { io_space = store_bytes len d.io_space (m.space + (addr - m.low)) w })
    unfolding map_write space_write
    map_write-eq w d =
        let fits : leb (m.space + (addr - m.low) + len) io_space_max ≡ true =
          ground (arith, k.room) in
        rw (length-ok len k.size, inside, offset, k.size, fits) refl

    -- A word written to a map without a handler reads back, cut to the length of the access.
    pub map_read-map_write :
        (w : ℕ) (d : Devices)
        → m.callback ≡ none
        → (d' : Devices) × (map_write clock addr len w (some m) d ≡ ok d')
          × (map_read clock addr len (some m) d' ≡ ok (w % 256 ^ len, d'))
    unfolding invoke_callback
    map_read-map_write w d quiet =
        let at : ℕ = m.space + (addr - m.low) in
        let d' : Devices = record d { io_space = store_bytes len d.io_space at w } in
        (
          d',
          map_write-eq w d ∙ ap (λ c. invoke_callback clock c (addr - m.low) len true d') quiet,
          map_read-eq d'
              ∙ ap (λ c. loaded (invoke_callback clock c (addr - m.low) len false d')) quiet
              ∙ ap (λ v. ok (v, d')) (load-store_bytes len d.io_space at w),
        )

module _ (clock : ℕ → ℕ) where
  -- Outside pmem and every map, reads and writes stop the emulator.
  bus_unmapped :
      (addr len w : ℕ) (m : Machine) (d : Devices)
      → in_pmem addr ≡ false
      → find_map d.mmio_maps addr ≡ none
      → (bus_read clock addr len m d ≡ fail assertion)
        × (bus_write clock addr len w m d ≡ fail assertion)
  unfolding bus_read bus_write
  bus_unmapped addr len w m d out gap = ground (arith, gap)
