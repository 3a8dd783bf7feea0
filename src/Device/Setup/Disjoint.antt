-- ===== src/Device/Setup/Disjoint.antt =====
-- The maps that add_mmio_map registers, and the spaces that new_space hands out.
use rv32i.Base.{
  ◌↔◌, subst, ℕ, ◌+◌, ◌%◌, ◌≤◌, ◌<◌, ◌≡◌, ◌⊎◌, refl, arith, true, false, ltb, List, [], ◌∷◌, ◌++◌,
  length, length-append, ap, sym, Option, some, ok, fail, assertion, Bool-cases, inl, inr,
}
use rv32i.Memory.{in_pmem}
use rv32i.Device.{Callback, IoMap, Devices}
use rv32i.Device.Access.{io_space_max, map_inside, find_map}
use rv32i.Device.Setup.{nr_map, page_size, page_align, new_space, overlaps, new_map, add_mmio_map}

-- No address is in `m` and in a map of the list.
abbrev pub IsApart : IoMap → List IoMap → Type 0
IsApart m [] = Unit
IsApart m (n ∷ ns) = ((m.high < n.low) ⊎ (n.high < m.low)) × IsApart m ns

-- No two maps of the list share an address.
abbrev pub AreApart : List IoMap → Type 0
AreApart [] = Unit
AreApart (m ∷ ms) = IsApart m ms × AreApart ms

overlaps-IsApart : (m : IoMap) (ns : List IoMap) → overlaps m.low m.high ns ≡ false → IsApart m ns
unfolding overlaps
overlaps-IsApart m [] h = tt
overlaps-IsApart m (n ∷ ns) h = (ground arith, overlaps-IsApart m ns (ground arith))

IsApart-append :
    (m n : IoMap) (ns : List IoMap)
    → IsApart m ns
    → (m.high < n.low) ⊎ (n.high < m.low)
    → IsApart m (ns ++ (n ∷ []))
IsApart-append m n [] h e = (e, tt)
IsApart-append m n (l ∷ ns) h e = (h.0, IsApart-append m n ns h.1 e)

AreApart-append :
    (m : IoMap) (ns : List IoMap) → IsApart m ns → AreApart ns → AreApart (ns ++ (m ∷ []))
AreApart-append m [] h a = (tt, tt)
AreApart-append m (n ∷ ns) h a =
    (IsApart-append n m ns a.0 (swap h.0), AreApart-append m ns h.1 a.1)
  where
    swap : (m.high < n.low) ⊎ (n.high < m.low) → (n.high < m.low) ⊎ (m.high < n.low)
    swap (inl e) = inr e
    swap (inr e) = inl e

-- Neither end of a map is in pmem.
abbrev pub AreOutside : List IoMap → Type 0
AreOutside [] = Unit
AreOutside (m ∷ ms) = (in_pmem m.low ≡ false) × (in_pmem m.high ≡ false) × AreOutside ms

AreOutside-append :
    (m : IoMap) (ns : List IoMap)
    → in_pmem m.low ≡ false
    → in_pmem m.high ≡ false
    → AreOutside ns
    → AreOutside (ns ++ (m ∷ []))
AreOutside-append m [] l h o = (l, h, tt)
AreOutside-append m (n ∷ ns) l h o = (o.0, o.1, AreOutside-append m ns l h o.2)

pub record AreMaps (maps : List IoMap) : Type 0 where
  pub apart : AreApart maps
  pub outside : AreOutside maps
  pub few : length maps ≤ nr_map

-- Why add_mmio_map stops the emulator.
abbrev pub IsRefused : IoMap → List IoMap → Type 0
IsRefused m maps =
    (nr_map ≤ length maps)
    ⊎ (in_pmem m.low ≡ true)
    ⊎ (in_pmem m.high ≡ true)
    ⊎ (overlaps m.low m.high maps ≡ true)

-- add_mmio_map puts the new map behind the others, and keeps the maps at most 16, pairwise without a
-- shared address, and with both ends outside pmem; or it stops the emulator, when the table is full,
-- an end of the new map is in pmem, or it meets another map.
pub add_mmio_map-AreMaps :
    (name : List ℕ) (addr space len : ℕ) (c : Option Callback) (d : Devices)
    → AreMaps d.mmio_maps
    → let m = new_map name addr space len c in
      ((d' : Devices) × (add_mmio_map name addr space len c d ≡ ok d')
        × (d'.mmio_maps ≡ d.mmio_maps ++ (m ∷ []))
        × AreMaps d'.mmio_maps)
      ⊎ ((add_mmio_map name addr space len c d ≡ fail assertion) × IsRefused m d.mmio_maps)
unfolding add_mmio_map
add_mmio_map-AreMaps name addr space len c d k =
    let m = new_map name addr space len c in
    elim (Bool-cases (ltb (length d.mmio_maps) nr_map)) [
      | inr full ↦ inr (rw full refl, inl (ground arith))
      | inl room ↦ elim (Bool-cases (in_pmem m.low)) [
        | inl low ↦ inr (rw (room, low) refl, inr (inl low))
        | inr below ↦ elim (Bool-cases (in_pmem m.high)) [
          | inl high ↦ inr (rw (room, below, high) refl, inr (inr (inl high)))
          | inr above ↦ elim (Bool-cases (overlaps m.low m.high d.mmio_maps)) [
            | inl meets ↦ inr (rw (room, below, above, meets) refl, inr (inr (inr meets)))
            | inr free ↦ inl (
              record d { mmio_maps = d.mmio_maps ++ (m ∷ []) },
              rw (room, below, above, free) refl,
              refl,
              record {
                apart = AreApart-append m d.mmio_maps (overlaps-IsApart m d.mmio_maps free) k.apart;
                outside = AreOutside-append m d.mmio_maps below above k.outside;
                few = ground (arith, length-append d.mmio_maps (m ∷ []));
              },
            )
          ]
        ]
      ]
    ]

-- The map stands in the list.
abbrev pub IsIn : IoMap → List IoMap → Type 0
IsIn m [] = ⊥
IsIn m (n ∷ ns) = (m ≡ n) ⊎ IsIn m ns

inside-bounds : (m : IoMap) (addr : ℕ) → map_inside m addr ≡ true → (m.low ≤ addr) × (addr ≤ m.high)
unfolding map_inside
inside-bounds m addr h = ground arith

IsApart-IsIn :
    (n m : IoMap) (ns : List IoMap) (addr : ℕ)
    → IsApart n ns
    → IsIn m ns
    → map_inside m addr ≡ true
    → map_inside n addr ≡ false
unfolding map_inside
IsApart-IsIn n m (l ∷ ns) addr a (inl e) h =
    let (lo, hi) = inside-bounds l addr (subst (λ x. map_inside x addr ≡ true) e h) in ground arith
IsApart-IsIn n m (l ∷ ns) addr a (inr i) h = IsApart-IsIn n m ns addr a.1 i h
IsApart-IsIn n m [] addr a i h = elim i [ ]

find_map-IsIn :
    (maps : List IoMap) (addr : ℕ) (m : IoMap)
    → find_map maps addr ≡ some m
    → IsIn m maps × (map_inside m addr ≡ true)
unfolding find_map
find_map-IsIn [] addr m h = cc
find_map-IsIn (n ∷ ns) addr m h = elim (Bool-cases (map_inside n addr)) [
  | inl hit ↦
      let e : some n ≡ some m = rw hit at h in
      let same : n ≡ m = cc in (inl (sym same), subst (λ x. map_inside x addr ≡ true) same hit)
  | inr miss ↦ let (i, t) = find_map-IsIn ns addr m (rw miss at h) in (inr i, t)
]

find_map_of_IsIn :
    (maps : List IoMap) (addr : ℕ) (m : IoMap)
    → AreApart maps
    → IsIn m maps
    → map_inside m addr ≡ true
    → find_map maps addr ≡ some m
unfolding find_map
find_map_of_IsIn [] addr m a i h = elim i [ ]
find_map_of_IsIn (n ∷ ns) addr m a (inl e) h =
    let hit : map_inside n addr ≡ true = subst (λ x. map_inside x addr ≡ true) e h in
    rw hit (ap some (sym e))
find_map_of_IsIn (n ∷ ns) addr m a (inr i) h =
    rw (IsApart-IsIn n m ns addr a.0 i h) (find_map_of_IsIn ns addr m a.1 i h)

inside_of_bounds : (m : IoMap) (addr : ℕ) → m.low ≤ addr → addr ≤ m.high → map_inside m addr ≡ true
unfolding map_inside
inside_of_bounds m addr lo hi = ground arith

-- Among maps that share no address, the search finds a map if and only if it stands in the table and
-- the address is from its first to its last, both included, whatever the order of registration.
pub find_map_iff :
    (maps : List IoMap) (addr : ℕ) (m : IoMap)
    → AreApart maps
    → (find_map maps addr ≡ some m) ↔ (IsIn m maps × (m.low ≤ addr) × (addr ≤ m.high))
find_map_iff maps addr m a = (
  λ e.
      let (i, h) = find_map-IsIn maps addr m e in
      let (lo, hi) = inside-bounds m addr h in (i, lo, hi),
  λ (i, lo, hi). find_map_of_IsIn maps addr m a i (inside_of_bounds m addr lo hi),
)

-- A space that new_space hands out begins on a page, behind all that were handed out before, and has
-- its size before the next page that is free, which is within io_space.
new_space-page :
    (size : ℕ) (d : Devices) {base : ℕ} {d' : Devices}
    → d.p_space % page_size ≡ 0
    → new_space size d ≡ ok (base, d')
    → (base ≡ d.p_space)
      × (base % page_size ≡ 0)
      × (base + size ≤ d'.p_space)
      × (d'.p_space % page_size ≡ 0)
      × (d'.p_space < io_space_max)
unfolding new_space
new_space-page size d {base} {d'} h e =
    elim (Bool-cases (ltb (d.p_space + page_align size) io_space_max)) [
      | inl room ↦ ground (arith, page_align_lem size)
      | inr full ↦ ground arith
    ]
  where
    page_align_lem : (n : ℕ) → (n ≤ page_align n) × (page_align n % page_size ≡ 0)
    page_align_lem n = omega arith
