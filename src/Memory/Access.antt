-- ===== src/Memory/Access.antt =====
-- What a read and a write of guest memory come to, address by address.
use native.Mathlib.Nat.{pow-succ', one-le-pow}
use rv32i.Base.{
  ℕ, zero, suc, ◌+◌, ◌*◌, ◌/◌, ◌%◌, ◌^◌, ◌≤◌, ◌<◌, ◌≡◌, ◌⊎◌, refl, arith, true, ok, inl, ap, sym,
  ◌∙◌,
}
use rv32i.Base.Bits.{mod-mul}
use rv32i.Word.{sub32}
use rv32i.Machine.{Machine, update}
use rv32i.Memory.{
  mbase, msize, in_pmem, guest_to_host, load_bytes, store_bytes, host_len, host_read, host_write,
  pmem_read, pmem_write, paddr_read, paddr_write,
}

-- Whole ranges of guest memory: the access lies in pmem, and its length is one that the host has.
pub record IsAccess (addr len : ℕ) : Type 0 where
  pub from : mbase ≤ addr
  pub to : addr + len ≤ mbase + msize
  pub size : host_len len ≡ true

-- A store leaves the bytes around it alone.
pub store_bytes-other :
    (len : ℕ) (mem : ℕ → ℕ) (off v a : ℕ)
    → (a < off) ⊎ (off + len ≤ a)
    → store_bytes len mem off v a ≡ mem a
unfolding store_bytes
store_bytes-other zero mem off v a h = refl
store_bytes-other (suc len) mem off v a h =
    ground
      (arith, store_bytes-other len (update mem off (v % 256)) (off + 1) (v / 256) a (grind arith))

-- A load reads no more than its own bytes.
pub load_bytes-congr :
    (len : ℕ) (f g : ℕ → ℕ) (off : ℕ)
    → ((a : ℕ) → off ≤ a → a < off + len → f a ≡ g a)
    → load_bytes len f off ≡ load_bytes len g off
unfolding load_bytes
load_bytes-congr zero f g off h = refl
load_bytes-congr (suc len) f g off h = omega (
  arith,
  h off (omega arith) (omega arith),
  load_bytes-congr len f g (off + 1) (λ a p q. h a (omega arith) (omega arith)),
)

div-mod-pow : (v n : ℕ) → v % 256 + 256 * (v / 256 % 256 ^ n) ≡ v % 256 ^ suc n
div-mod-pow v n =
    sym (mod-mul 256 v (256 ^ n) (omega arith) (one-le-pow n 256 (omega arith)))
    ∙ ap (λ k. v % k) (sym (pow-succ' 256 n))

-- What is stored is loaded again, up to its length.
pub load-store_bytes :
    (len : ℕ) (mem : ℕ → ℕ) (off v : ℕ)
    → load_bytes len (store_bytes len mem off v) off ≡ v % 256 ^ len
unfolding load_bytes store_bytes
load-store_bytes zero mem off v = omega arith
load-store_bytes (suc len) mem off v = omega (
  arith,
  store_bytes-other len (update mem off (v % 256)) (off + 1) (v / 256) off (inl (omega arith)),
  own,
  load-store_bytes len (update mem off (v % 256)) (off + 1) (v / 256),
  div-mod-pow v len,
)
  where
    own : update mem off (v % 256) off ≡ v % 256
    own = ground arith

module _ {addr len : ℕ} (a : IsAccess addr len) (m : Machine) where
  -- Inside guest memory a read returns the bytes at the address, little end first.
  pub paddr_read-load_bytes :
      paddr_read addr len m ≡ ok (load_bytes len m.pmem (guest_to_host addr), m)
  unfolding paddr_read in_pmem pmem_read host_read guest_to_host sub32
  paddr_read-load_bytes = ground (arith, a.size)

  pub paddr_write-store_bytes :
      (w : ℕ)
      → paddr_write addr len w m
        ≡ ok (tt, record m { pmem = store_bytes len m.pmem (guest_to_host addr) w })
  unfolding paddr_write in_pmem pmem_write host_write guest_to_host sub32
  paddr_write-store_bytes w = ground (arith, a.size)
