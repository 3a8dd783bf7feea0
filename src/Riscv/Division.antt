-- ===== src/Riscv/Division.antt =====
-- Division of int32_t: the quotient and the remainder belong together.
use native.Mathlib.Nat.{div-add-mod, mod-lt, mul-le-mul_right, div-le_self}
use rv32i.Base.{
  ℕ, zero, suc, ◌+◌, ◌-◌, ◌*◌, ◌/◌, ◌%◌, ◌^◌, ◌≤◌, ◌<◌, ◌≡◌, ◌⊎◌, refl, arith, Bool, true, false,
  not, ◌==◌, if◌then◌else◌, ap, ok, Bool-cases, inl, inr,
}
use rv32i.Word.{u32, neg32, magnitude}
use rv32i.Riscv.Alu.{divides, is_negative, div_s32, rem_s32}

-- Quotient and remainder of int32_t: the magnitudes divide with remainder, the remainder has the
-- dividend's sign, and the quotient's sign is negative where those of the operands differ.
pub record IsQuotient (a b q r : ℕ) : Type 0 where
  pub whole : magnitude b * magnitude q + magnitude r ≡ magnitude a
  pub small : magnitude r < magnitude b
  pub rem_sign : (r ≡ 0) ⊎ (is_negative r ≡ is_negative a)
  pub quot_sign :
      (q ≡ 0) ⊎ (is_negative q ≡ (if is_negative a then not (is_negative b) else is_negative b))

magnitude-neg32 : (v : ℕ) → v ≤ 2 ^ 31 → magnitude (neg32 v) ≡ v
unfolding magnitude neg32
magnitude-neg32 v h = ground arith

-- A number negated is 0 or negative.
neg32-sign : (v : ℕ) → v ≤ 2 ^ 31 → (neg32 v ≡ 0) ⊎ (is_negative (neg32 v) ≡ true)
unfolding neg32
neg32-sign zero h = inl refl
neg32-sign (suc v) h = inr (ground arith)

magnitude-le : (a : ℕ) → a < u32 → magnitude a ≤ 2 ^ 31
unfolding magnitude
magnitude-le a h = ground arith

magnitude_of_pos : (v : ℕ) → v < 2 ^ 31 → magnitude v ≡ v
unfolding magnitude
magnitude_of_pos v h = ground arith

pos_of_lt : (v : ℕ) → v < 2 ^ 31 → is_negative v ≡ false
pos_of_lt v h = ground arith

magnitude-pos : (b : ℕ) → b < u32 → 0 < b → 0 < magnitude b
unfolding magnitude
magnitude-pos b h p = ground arith

divides-pos : (a b : ℕ) → divides a b ≡ true → 0 < b
unfolding divides
divides-pos a b h = ground arith

-- Only -1 has magnitude 1 among the negative numbers, and -2^31 is not divided by it.
divisor_cases :
    (a b : ℕ)
    → a < u32
    → b < u32
    → divides a b ≡ true
    → is_negative b ≡ true
    → (magnitude a < 2 ^ 31) ⊎ (2 ≤ magnitude b)
unfolding divides magnitude
divisor_cases a b ha hb d n = elim (Bool-cases (b == u32 - 1)) [
  | inl e ↦ inl (ground arith)
  | inr e ↦ inr (ground arith)
]

-- The quotient of two negative numbers is an int32_t.
quotient-lt :
    (a b : ℕ)
    → a < u32
    → b < u32
    → divides a b ≡ true
    → is_negative b ≡ true
    → magnitude a / magnitude b < 2 ^ 31
quotient-lt a b ha hb d n = elim (divisor_cases a b ha hb d n) [
  | inl small ↦ omega (arith, div-le_self (magnitude a) (magnitude b))
  | inr two ↦ omega (
    arith,
    magnitude-le a ha,
    div-add-mod (magnitude a) (magnitude b),
    mul-le-mul_right (magnitude a / magnitude b) two,
  )
]

-- The word of a sign and a magnitude.
with_sign : Bool → ℕ → ℕ
with_sign true v = neg32 v
with_sign false v = v

magnitude-with_sign :
    (b : Bool) (v : ℕ) → v ≤ 2 ^ 31 → (b ≡ false → v < 2 ^ 31) → magnitude (with_sign b v) ≡ v
unfolding with_sign
magnitude-with_sign true v h f = magnitude-neg32 v h
magnitude-with_sign false v h f = magnitude_of_pos v (f refl)

with_sign-sign :
    (b : Bool) (v : ℕ)
    → v ≤ 2 ^ 31
    → (b ≡ false → v < 2 ^ 31)
    → (with_sign b v ≡ 0) ⊎ (is_negative (with_sign b v) ≡ b)
unfolding with_sign
with_sign-sign true v h f = neg32-sign v h
with_sign-sign false v h f = inr (pos_of_lt v (f refl))

magnitude_of_sign : (a : ℕ) → is_negative a ≡ false → magnitude a < 2 ^ 31
unfolding magnitude
magnitude_of_sign a h = ground arith

module _ {a b : ℕ} (ha : a < u32) (hb : b < u32) (d : divides a b ≡ true) where
  abbrev quotient : ℕ
  quotient = magnitude a / magnitude b

  abbrev remainder : ℕ
  remainder = magnitude a % magnitude b

  whole_lem : magnitude b * quotient + remainder ≡ magnitude a
  whole_lem = div-add-mod (magnitude a) (magnitude b)

  remainder-lt : remainder < magnitude b
  remainder-lt = mod-lt (magnitude a) (magnitude-pos b hb (divides-pos a b d))

  quotient-le : quotient ≤ 2 ^ 31
  quotient-le = omega (arith, magnitude-le a ha, div-le_self (magnitude a) (magnitude b))

  remainder-lt_word : remainder < 2 ^ 31
  remainder-lt_word = omega (arith, remainder-lt, magnitude-le b hb)

  signs : Bool
  signs = if is_negative a then not (is_negative b) else is_negative b

  quotient-fits : signs ≡ false → quotient < 2 ^ 31
  unfolding signs
  quotient-fits same = elim (Bool-cases (is_negative a)) [
    | inl neg_a ↦ elim (Bool-cases (is_negative b)) [
      | inl neg_b ↦ quotient-lt a b ha hb d neg_b
      | inr pos_b ↦ let other : signs ≡ true = rw (neg_a, pos_b) refl in cc
    ]
    | inr pos_a ↦ omega (arith, magnitude_of_sign a pos_a, div-le_self (magnitude a) (magnitude b))
  ]

  quotient-with_sign : div_s32 a b ≡ ok (with_sign signs quotient)
  unfolding div_s32 signs with_sign
  quotient-with_sign = elim (Bool-cases (is_negative a)) [
    | inl neg_a ↦ elim (Bool-cases (is_negative b)) [
      | inl neg_b ↦ rw (d, neg_a, neg_b) (ap ok (omega (arith, quotient-le)))
      | inr pos_b ↦ rw (d, neg_a, pos_b) refl
    ]
    | inr pos_a ↦ elim (Bool-cases (is_negative b)) [
      | inl neg_b ↦ rw (d, pos_a, neg_b) refl
      | inr pos_b ↦ rw (d, pos_a, pos_b) refl
    ]
  ]

  remainder-with_sign : rem_s32 a b ≡ ok (with_sign (is_negative a) remainder)
  unfolding rem_s32 with_sign
  remainder-with_sign = elim (Bool-cases (is_negative a)) [
    | inl neg_a ↦ rw (d, neg_a) refl
    | inr pos_a ↦ rw (d, pos_a) refl
  ]

  -- For words where the host's division is defined, div and rem return a quotient and a remainder
  -- that belong together: |b| * |q| + |r| = |a| with |r| < |b|, the remainder is 0 or has the
  -- dividend's sign, and the quotient is 0, or negative exactly if the signs of a and b differ.
  pub div_s32-rem_s32 :
      (q : ℕ) × (r : ℕ) × (div_s32 a b ≡ ok q) × (rem_s32 a b ≡ ok r) × IsQuotient a b q r
  unfolding signs
  div_s32-rem_s32 = (
    with_sign signs quotient,
    with_sign (is_negative a) remainder,
    quotient-with_sign,
    remainder-with_sign,
    record {
      whole = rw (mq, mr) whole_lem;
      small = rw mr remainder-lt;
      rem_sign =
          with_sign-sign (is_negative a) remainder (omega (arith, remainder-lt_word))
            (λ _. remainder-lt_word);
      quot_sign = with_sign-sign signs quotient quotient-le quotient-fits;
    },
  )
    where
      mq : magnitude (with_sign signs quotient) ≡ quotient
      mq = magnitude-with_sign signs quotient quotient-le quotient-fits

      mr : magnitude (with_sign (is_negative a) remainder) ≡ remainder
      mr =
          magnitude-with_sign (is_negative a) remainder (omega (arith, remainder-lt_word))
            (λ _. remainder-lt_word)
