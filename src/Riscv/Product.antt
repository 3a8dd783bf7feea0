-- ===== src/Riscv/Product.antt =====
-- mul and mulh: the two halves of the product of two int32_t.
use native.Mathlib.Nat.{mul-le-mul, add-mul, mul_comm, add-mul-mod_self_right}
use rv32i.Base.{
  ℕ, ◌+◌, ◌-◌, ◌*◌, ◌%◌, ◌^◌, ◌<◌, ◌≡◌, arith, ltb, if◌then◌else◌, Bool-cases, inl, inr, ap₂, sym,
  suc, ◌≤◌, ap, ◌∙◌,
}
use rv32i.Base.Int.{ℤ, pos, negsuc, neg_ℕ, ◌*ℤ◌, signed}
use rv32i.Word.{u32, u64, sext, mul32}
use rv32i.Riscv.Alu.{mulh32}

-- The digits that the sign extension adds above.
abbrev above : ℕ → ℕ
above a = if ltb a (2 ^ 31) then 0 else 2 ^ 32 - 1

sext-above : (a : ℕ) → a < u32 → sext a 32 ≡ a + above a * u32
unfolding sext
sext-above a h = ground arith

-- They do not matter for the lower half.
drop_above : (m k n : ℕ) → (m + k * u32) * n % u32 ≡ m * n % u32
drop_above m k n = ap (λ (x : ℕ). x % u32) spread ∙ add-mul-mod_self_right (m * n) (k * n) u32
  where
    spread : (m + k * u32) * n ≡ m * n + k * n * u32
    spread = grind arith

low_half : (a b : ℕ) → a < u32 → b < u32 → sext a 32 * sext b 32 % u32 ≡ mul32 a b
unfolding mul32
low_half a b ha hb =
    ap (λ (x : ℕ). x * sext b 32 % u32) (sext-above a ha)
    ∙ drop_above a (above a) (sext b 32)
    ∙ ap (λ (x : ℕ). x % u32) (mul_comm a (sext b 32) ∙ ap (λ (x : ℕ). x * a) (sext-above b hb))
    ∙ drop_above b (above b) a
    ∙ ap (λ (x : ℕ). x % u32) (mul_comm b a)

halves :
    (a b : ℕ) → a < u32 → b < u32 → mulh32 a b * 2 ^ 32 + mul32 a b ≡ sext a 32 * sext b 32 % u64
unfolding mulh32
halves a b ha hb = omega (arith, low_half a b ha hb)

-- The sign extension of a word to 64 bits, beside the integer that it stands for.
SignExtends : ℕ → ℤ → Type 0
SignExtends v (pos n) = (v ≡ n) × (n < 2 ^ 31)
SignExtends v (negsuc n) = (v ≡ u64 - suc n) × (n < 2 ^ 31)

sext-SignExtends : (a : ℕ) → a < u32 → SignExtends (sext a 32) (signed 32 a)
unfolding sext signed SignExtends
sext-SignExtends a h = elim (Bool-cases (ltb a (2 ^ 31))) [
  | inl small ↦ rw small (ground (arith, small), ground (arith, small))
  | inr large ↦ rw large (ground (arith, large), ground (arith, large))
]

product_bound : (m n : ℕ) → m ≤ 2 ^ 31 → n ≤ 2 ^ 31 → m * n ≤ 2 ^ 62
product_bound m n hm hn = omega (arith, mul-le-mul hm hn)

whole_times : (x n : ℕ) → x ≤ u64 → (u64 - x) * n + x * n ≡ u64 * n
whole_times x n h = sym (add-mul (u64 - x) x n) ∙ ap (λ k. k * n) whole
  where
    whole : u64 - x + x ≡ u64
    whole = omega arith

minus_times : (x n : ℕ) → x ≤ u64 → x * n ≤ u64 → (u64 - x) * n % u64 ≡ (u64 - x * n) % u64
minus_times x n hx hq = omega (arith, whole_times x n hx)

minus_minus : (x y : ℕ) → x ≤ u64 → y ≤ u64 → (u64 - x) * (u64 - y) % u64 ≡ x * y % u64
minus_minus x y hx hy =
    omega
      (arith, whole_times x (u64 - y) hx, whole_times y x hy, mul_comm x (u64 - y), mul_comm x y)

signed_small : (q : ℕ) → q ≤ 2 ^ 62 → signed 64 (q % u64) ≡ pos q
unfolding signed
signed_small q h = ground arith

signed_minus : (q : ℕ) → q ≤ 2 ^ 62 → signed 64 ((u64 - q) % u64) ≡ neg_ℕ q
unfolding signed
signed_minus q h = ground arith

product_of :
    (v w : ℕ) (i j : ℤ) → SignExtends v i → SignExtends w j → signed 64 (v * w % u64) ≡ i *ℤ j
unfolding ◌*ℤ◌ SignExtends
product_of v w (pos m) (pos n) (e, hm) (f, hn) =
    ap₂ (λ a b. signed 64 (a * b % u64)) e f
    ∙ signed_small (m * n) (product_bound m n (omega arith) (omega arith))
product_of v w (pos m) (negsuc n) (e, hm) (f, hn) =
    ap₂ (λ a b. signed 64 (a * b % u64)) e f
    ∙ ap (λ p. signed 64 (p % u64)) (mul_comm m (u64 - suc n))
    ∙ ap (signed 64) (
        minus_times (suc n) m (omega arith)
          (omega (arith, product_bound (suc n) m (omega arith) (omega arith))))
    ∙ signed_minus (suc n * m) (product_bound (suc n) m (omega arith) (omega arith))
    ∙ ap neg_ℕ (mul_comm (suc n) m)
product_of v w (negsuc m) (pos n) (e, hm) (f, hn) =
    ap₂ (λ a b. signed 64 (a * b % u64)) e f
    ∙ ap (signed 64) (
        minus_times (suc m) n (omega arith)
          (omega (arith, product_bound (suc m) n (omega arith) (omega arith))))
    ∙ signed_minus (suc m * n) (product_bound (suc m) n (omega arith) (omega arith))
product_of v w (negsuc m) (negsuc n) (e, hm) (f, hn) =
    ap₂ (λ a b. signed 64 (a * b % u64)) e f
    ∙ ap (signed 64) (minus_minus (suc m) (suc n) (omega arith) (omega arith))
    ∙ signed_small (suc m * suc n) (product_bound (suc m) (suc n) (omega arith) (omega arith))

-- For words `a` and `b`, mulh and mul are the upper and the lower half of a word of 64 bits that
-- stands, in two's complement, for the product of the two integers that `a` and `b` stand for.
pub mulh32-mul32 :
    (a b : ℕ)
    → a < u32
    → b < u32
    → signed 64 (mulh32 a b * 2 ^ 32 + mul32 a b) ≡ signed 32 a *ℤ signed 32 b
mulh32-mul32 a b ha hb =
    ap (signed 64) (halves a b ha hb)
    ∙ product_of (sext a 32) (sext b 32) (signed 32 a) (signed 32 b) (sext-SignExtends a ha)
        (sext-SignExtends b hb)
