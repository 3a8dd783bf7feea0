-- ===== src/Base/Bits.antt =====
-- Facts about `bit_and`, `bit_or` and `bit_xor` at variables, from the digit recursion that they
-- stand for.
use Prim.Native.Nat.{
  ℕ, zero, suc, ◌+◌, ◌*◌, ◌/◌, ◌%◌, ◌^◌, ◌≤◌, ◌<◌, min, max, bit_and, bit_or, digits,
  bit_and-bitwise, bit_or-bitwise, bit_xor, bit_xor-bitwise, differ, bitwise,
}
use mathlib.Core.Path.{◌≡◌, refl, ap, ap₂, sym, ◌∙◌, ◌≡⟨◌⟩◌, ◌∎}
use native.Mathlib.Omega.{arith}
use native.Mathlib.Nat.{
  pow-suc, pow-succ', one-le-pow, mul-one, div-one, div-div-eq-div-mul, mod-lt, mod-eq_of_lt,
  mul-add-mod_self_left, div-add-mod,
}

-- The digit recursion of all three operations, with the result `z` once the first number has run out.
module _ (z : ℕ → ℕ) (f : ℕ → ℕ → ℕ) where
  -- A count of `n` digits is enough for a number that is not above it.
  extra_count : (n m a b : ℕ) → a ≤ n → n ≤ m → digits z f m a b ≡ digits z f n a b
  extra_count zero zero a b small le = refl
  extra_count zero (suc m) zero b small le = refl
  extra_count zero (suc m) (suc a) b small le = absurd (omega arith)
  extra_count (suc n) zero a b small le = absurd (omega arith)
  extra_count (suc n) (suc m) zero b small le = refl
  extra_count (suc n) (suc m) (suc a) b small le =
      ap (λ (d : ℕ). d * 2 + f (suc a % 2) (b % 2))
        (extra_count n m (suc a / 2) (b / 2) (omega arith) (omega arith))

  -- The lowest digit and the others.
  lowest_digit :
      ((b : ℕ) → z b ≡ z (b / 2) * 2 + f 0 (b % 2))
      → (a b : ℕ) → bitwise z f a b ≡ bitwise z f (a / 2) (b / 2) * 2 + f (a % 2) (b % 2)
  lowest_digit low zero b = low b
  lowest_digit low (suc a) b =
      ap (λ (d : ℕ). d * 2 + f (suc a % 2) (b % 2))
        (extra_count (suc a / 2) a (suc a / 2) (b / 2) (omega arith) (omega arith))

  -- A second number that is 0.
  second_zero :
      (g : ℕ → ℕ)
      → z 0 ≡ g 0
      → ((a : ℕ) → g (suc a / 2) * 2 + f (suc a % 2) 0 ≡ g (suc a))
      → (n a : ℕ) → a ≤ n
      → digits z f n a 0 ≡ g a
  second_zero g base step zero zero small = base
  second_zero g base step zero (suc a) small = absurd (omega arith)
  second_zero g base step (suc n) zero small = base
  second_zero g base step (suc n) (suc a) small =
      ap (λ (d : ℕ). d * 2 + f (suc a % 2) 0) (second_zero g base step n (suc a / 2) (omega arith))
      ∙ step a

pub zero-bit_and : (b : ℕ) → bit_and 0 b ≡ 0
zero-bit_and = bit_and-bitwise 0

pub bit_and_step : (a b : ℕ) → bit_and a b ≡ bit_and (a / 2) (b / 2) * 2 + min (a % 2) (b % 2)
bit_and_step a b =
    bit_and-bitwise a b
    ∙ lowest_digit (λ b. zero) min (λ b. omega arith) a b
    ∙ ap (λ (d : ℕ). d * 2 + min (a % 2) (b % 2)) (sym (bit_and-bitwise (a / 2) (b / 2)))

pub bit_and-zero : (a : ℕ) → bit_and a 0 ≡ 0
bit_and-zero a =
    bit_and-bitwise a 0
    ∙ second_zero (λ b. zero) min (λ _. 0) refl (λ a. omega arith) a a (omega arith)

pub zero-bit_or : (b : ℕ) → bit_or 0 b ≡ b
zero-bit_or = bit_or-bitwise 0

pub bit_or_step : (a b : ℕ) → bit_or a b ≡ bit_or (a / 2) (b / 2) * 2 + max (a % 2) (b % 2)
bit_or_step a b =
    bit_or-bitwise a b
    ∙ lowest_digit (λ b. b) max (λ b. omega arith) a b
    ∙ ap (λ (d : ℕ). d * 2 + max (a % 2) (b % 2)) (sym (bit_or-bitwise (a / 2) (b / 2)))

pub bit_or-zero : (a : ℕ) → bit_or a 0 ≡ a
bit_or-zero a =
    bit_or-bitwise a 0 ∙ second_zero (λ b. b) max (λ a. a) refl (λ a. omega arith) a a (omega arith)

pub zero-bit_xor : (b : ℕ) → bit_xor 0 b ≡ b
zero-bit_xor = bit_xor-bitwise 0

pub bit_xor_step : (a b : ℕ) → bit_xor a b ≡ bit_xor (a / 2) (b / 2) * 2 + differ (a % 2) (b % 2)
bit_xor_step a b =
    bit_xor-bitwise a b
    ∙ lowest_digit (λ b. b) differ (λ b. omega arith) a b
    ∙ ap (λ (d : ℕ). d * 2 + differ (a % 2) (b % 2)) (sym (bit_xor-bitwise (a / 2) (b / 2)))

pub mul-pow-suc : (a k : ℕ) → a * 2 ^ suc k ≡ a * 2 ^ k * 2
mul-pow-suc a k = rw pow-suc (omega arith)

pub div-pow-suc : (a k : ℕ) → a / 2 / 2 ^ k ≡ a / 2 ^ suc k
div-pow-suc a k = div-div-eq-div-mul a 2 (2 ^ k) ∙ ap (λ n. a / n) (omega (arith, pow-suc 2 k))

-- A mask that ends in `k` zeros.
pub bit_and-shift : (k a b : ℕ) → bit_and a (b * 2 ^ k) ≡ bit_and (a / 2 ^ k) b * 2 ^ k
bit_and-shift zero a b =
    ap (bit_and a) (mul-one b) ∙ ap (λ n. bit_and n b) (sym (div-one a)) ∙ sym (mul-one _)
bit_and-shift (suc k) a b = omega (
  arith,
  bit_and_step a (b * 2 ^ suc k),
  ap (bit_and (a / 2)) half,
  bit_and-shift k (a / 2) b,
  ap (λ n. bit_and n b * 2 ^ k) (div-pow-suc a k),
  mul-pow-suc b k,
  mul-pow-suc (bit_and (a / 2 ^ suc k) b) k,
)
  where
    half : b * 2 ^ suc k / 2 ≡ b * 2 ^ k
    half = omega (arith, mul-pow-suc b k)

-- Numbers that share no digit add up.
pub bit_or-disjoint : (k a b : ℕ) → b < 2 ^ k → bit_or (a * 2 ^ k) b ≡ a * 2 ^ k + b
bit_or-disjoint zero a b h =
    omega (arith, bit_or-zero (a * 2 ^ zero), ap (bit_or (a * 2 ^ zero)) none_left)
  where
    none_left : b ≡ 0
    none_left = omega arith
bit_or-disjoint (suc k) a b h = omega (
  arith,
  bit_or_step (a * 2 ^ suc k) b,
  ap (λ n. bit_or n (b / 2)) half,
  bit_or-disjoint k a (b / 2) (omega (arith, pow-suc 2 k)),
  mul-pow-suc a k,
)
  where
    half : a * 2 ^ suc k / 2 ≡ a * 2 ^ k
    half = omega (arith, mul-pow-suc a k)

-- The lowest digit in base `b`, and the others.
pub mod-mul : (b v p : ℕ) → 0 < b → 0 < p → v % (b * p) ≡ v % b + b * (v / b % p)
mod-mul b v p hb hp =
    v % (b * p)
    ≡⟨ ap (λ n. n % (b * p)) (sym whole) ⟩
      (b * p * (v / b / p) + (v % b + b * (v / b % p))) % (b * p)
    ≡⟨ mul-add-mod_self_left (b * p) (v / b / p) _ ⟩ (v % b + b * (v / b % p)) % (b * p)
    ≡⟨ mod-eq_of_lt small ⟩ v % b + b * (v / b % p) ∎
  where
    small : v % b + b * (v / b % p) < b * p
    small = grind (arith, mod-lt (v / b) hp, mod-lt v hb)

    whole : b * p * (v / b / p) + (v % b + b * (v / b % p)) ≡ v
    whole = omega (arith, ap (λ (n : ℕ). b * n) (div-add-mod (v / b) p), div-add-mod v b)

pub mod-pow-suc : (v k : ℕ) → v % 2 ^ suc k ≡ v % 2 + 2 * (v / 2 % 2 ^ k)
mod-pow-suc v k =
    ap (λ n. v % n) (pow-succ' 2 k)
    ∙ mod-mul 2 v (2 ^ k) (omega arith) (one-le-pow k 2 (omega arith))

differ-le : (n a b : ℕ) → a ≤ n → b ≤ n → differ a b ≤ n
differ-le n zero b p q = q
differ-le n (suc a) zero p q = p
differ-le n (suc a) (suc b) p q = differ-le n a b (omega arith) (omega arith)

differ-lt : (a b : ℕ) → differ (a % 2) (b % 2) < 2
differ-lt a b = omega (arith, differ-le 1 (a % 2) (b % 2) (omega arith) (omega arith))

-- The results stay within the width of the operands.
pub bit_and-lt : (k a b : ℕ) → a < 2 ^ k → bit_and a b < 2 ^ k
bit_and-lt zero a b h =
    omega (arith, bit_and_step a b, ap (λ n. bit_and n (b / 2)) small, zero-bit_and (b / 2))
  where
    small : a / 2 ≡ 0
    small = omega arith
bit_and-lt (suc k) a b h = omega (
  arith,
  bit_and_step a b,
  bit_and-lt k (a / 2) (b / 2) (omega (arith, pow-suc 2 k)),
  pow-suc 2 k,
)

pub bit_or-lt : (k a b : ℕ) → a < 2 ^ k → b < 2 ^ k → bit_or a b < 2 ^ k
bit_or-lt zero a b h h' = omega (arith, bit_or_step a b, ap₂ bit_or small small', zero-bit_or 0)
  where
    small : a / 2 ≡ 0
    small = omega arith

    small' : b / 2 ≡ 0
    small' = omega arith
bit_or-lt (suc k) a b h h' = omega (
  arith,
  bit_or_step a b,
  bit_or-lt k (a / 2) (b / 2) (omega (arith, pow-suc 2 k)) (omega (arith, pow-suc 2 k)),
  pow-suc 2 k,
)

pub bit_xor-lt : (k a b : ℕ) → a < 2 ^ k → b < 2 ^ k → bit_xor a b < 2 ^ k
bit_xor-lt zero a b h h' = omega (arith, ap₂ bit_xor small small', zero-bit_xor 0)
  where
    small : a ≡ 0
    small = omega arith

    small' : b ≡ 0
    small' = omega arith
bit_xor-lt (suc k) a b h h' = omega (
  arith,
  bit_xor_step a b,
  bit_xor-lt k (a / 2) (b / 2) (omega (arith, pow-suc 2 k)) (omega (arith, pow-suc 2 k)),
  differ-lt a b,
  pow-suc 2 k,
)

-- Above the `k` lowest digits, where only one operand has any, the digits are joined.
pub bit_or-split :
    (k a b c : ℕ) → b < 2 ^ k → bit_or (a * 2 ^ k + b) (c * 2 ^ k) ≡ bit_or a c * 2 ^ k + b
bit_or-split zero a b c h =
    ap₂ bit_or {x = a * 2 ^ zero + b} {y = a} (omega arith) (mul-one c) ∙ omega arith
bit_or-split (suc k) a b c h = omega (
  arith,
  bit_or_step (a * 2 ^ suc k + b) (c * 2 ^ suc k),
  ap₂ bit_or left right,
  bit_or-split k a (b / 2) c (omega (arith, pow-suc 2 k)),
  mul-pow-suc a k,
  mul-pow-suc c k,
  mul-pow-suc (bit_or a c) k,
)
  where
    left : (a * 2 ^ suc k + b) / 2 ≡ a * 2 ^ k + b / 2
    left = omega (arith, mul-pow-suc a k)

    right : c * 2 ^ suc k / 2 ≡ c * 2 ^ k
    right = omega (arith, mul-pow-suc c k)
