-- ===== src/Riscv/Immediates.antt =====
-- The immediates of decode_operand against the instruction formats, where an immediate is a field of
-- bits that the instruction word holds in pieces.
use rv32i.Base.{ℕ, ◌+◌, ◌-◌, ◌*◌, ◌%◌, ◌^◌, ◌<◌, ◌≡◌, arith, ltb, if◌then◌else◌, ap, ◌∙◌, bit_or}
use rv32i.Base.Bits.{bit_or-disjoint, bit_or-split}
use rv32i.Word.{u32, u64, bits, sext}
use rv32i.Riscv.Exec.{imm_i, imm_u, imm_s, imm_b, imm_j}

-- A field of `n` bits as a two's complement number, in 32 bits.
abbrev pub signed_field : ℕ → ℕ → ℕ
signed_field n v = if ltb v (2 ^ (n - 1)) then v else v + u32 - 2 ^ n

-- The pieces of a branch offset, under any digits above.
join_b :
    (k a b c : ℕ)
    → a < 2 ^ 6
    → b < 2 ^ 4
    → c < 2
    → bit_or (bit_or (bit_or (k * 2 ^ 12) (a * 2 ^ 5)) (b * 2 ^ 1)) (c * 2 ^ 11)
      ≡ k * 2 ^ 12 + c * 2 ^ 11 + a * 2 ^ 5 + b * 2 ^ 1
join_b k a b c la lb lc =
    ap (λ n. bit_or (bit_or n (b * 2 ^ 1)) (c * 2 ^ 11))
      (bit_or-disjoint 12 k (a * 2 ^ 5) (omega arith) ∙ above)
    ∙ ap (λ n. bit_or n (c * 2 ^ 11))
        (bit_or-disjoint 5 (k * 2 ^ 7 + a) (b * 2 ^ 1) (omega arith) ∙ regroup)
    ∙ bit_or-split 11 (k * 2 ^ 1) (a * 2 ^ 5 + b * 2 ^ 1) c (omega arith)
    ∙ omega (arith, bit_or-disjoint 1 k c (omega arith))
  where
    above : k * 2 ^ 12 + a * 2 ^ 5 ≡ (k * 2 ^ 7 + a) * 2 ^ 5
    above = omega arith

    regroup : (k * 2 ^ 7 + a) * 2 ^ 5 + b * 2 ^ 1 ≡ k * 2 ^ 1 * 2 ^ 11 + (a * 2 ^ 5 + b * 2 ^ 1)
    regroup = omega arith

-- The pieces of a jump offset.
join_j :
    (k a b c : ℕ)
    → a < 2 ^ 10
    → b < 2
    → c < 2 ^ 8
    → bit_or (bit_or (bit_or (k * 2 ^ 20) (a * 2 ^ 1)) (b * 2 ^ 11)) (c * 2 ^ 12)
      ≡ k * 2 ^ 20 + c * 2 ^ 12 + b * 2 ^ 11 + a * 2 ^ 1
join_j k a b c la lb lc =
    ap (λ n. bit_or (bit_or n (b * 2 ^ 11)) (c * 2 ^ 12))
      (bit_or-disjoint 20 k (a * 2 ^ 1) (omega arith) ∙ above)
    ∙ ap (λ n. bit_or n (c * 2 ^ 12))
        (bit_or-split 11 (k * 2 ^ 9) (a * 2 ^ 1) b (omega arith) ∙ regroup)
    ∙ bit_or-split 12 (k * 2 ^ 8) (b * 2 ^ 11 + a * 2 ^ 1) c (omega arith)
    ∙ omega (arith, bit_or-disjoint 8 k c (omega arith))
  where
    above : k * 2 ^ 20 + a * 2 ^ 1 ≡ k * 2 ^ 9 * 2 ^ 11 + a * 2 ^ 1
    above = omega arith

    regroup :
        bit_or (k * 2 ^ 9) b * 2 ^ 11 + a * 2 ^ 1 ≡ k * 2 ^ 8 * 2 ^ 12 + (b * 2 ^ 11 + a * 2 ^ 1)
    regroup = omega (arith, bit_or-disjoint 9 k b (omega arith))

-- A sign bit, and a field of 7 bits, shifted to its place in 64 bits.
sign_b : (s : ℕ) → s < 2 → sext s 1 * 2 ^ 12 % u64 ≡ s * (2 ^ 52 - 1) * 2 ^ 12
unfolding sext
sign_b s h = ground arith

sign_j : (s : ℕ) → s < 2 → sext s 1 * 2 ^ 20 % u64 ≡ s * (2 ^ 44 - 1) * 2 ^ 20
unfolding sext
sign_j s h = ground arith

abbrev upper_s : ℕ → ℕ
upper_s v = if ltb v (2 ^ 6) then v else v + 2 ^ 59 - 2 ^ 7

sign_s : (v : ℕ) → v < 2 ^ 7 → sext v 7 * 2 ^ 5 % u64 ≡ upper_s v * 2 ^ 5
unfolding sext
sign_s v h = ground arith

imm_i-signed_field : (x : ℕ) → imm_i x ≡ signed_field 12 (bits x 31 20)
unfolding imm_i sext
imm_i-signed_field x = ground arith

imm_s-signed_field : (x : ℕ) → imm_s x ≡ signed_field 12 (bits x 31 25 * 2 ^ 5 + bits x 11 7)
unfolding imm_s
imm_s-signed_field x =
    ap (λ n. bit_or n (bits x 11 7) % u32) (sign_s (bits x 31 25) (omega arith))
    ∙ ap (λ n. n % u32) (bit_or-disjoint 5 (upper_s (bits x 31 25)) (bits x 11 7) (omega arith))
    ∙ ground arith

imm_b-signed_field :
    (x : ℕ)
    → imm_b x
      ≡ signed_field 13
          (bits x 31 31 * 2 ^ 12 + bits x 7 7 * 2 ^ 11 + bits x 30 25 * 2 ^ 5 + bits x 11 8 * 2 ^ 1)
unfolding imm_b
imm_b-signed_field x =
    ap
      (λ n.
        bit_or (bit_or (bit_or n (bits x 30 25 * 2 ^ 5)) (bits x 11 8 * 2 ^ 1))
          (bits x 7 7 * 2 ^ 11)
        % u32)
      (sign_b (bits x 31 31) (omega arith))
    ∙ ap (λ n. n % u32)
        (join_b (bits x 31 31 * (2 ^ 52 - 1)) (bits x 30 25) (bits x 11 8) (bits x 7 7)
          (omega arith) (omega arith) (omega arith))
    ∙ ground arith

imm_j-signed_field :
    (x : ℕ)
    → imm_j x
      ≡ signed_field 21 (
          bits x 31 31 * 2 ^ 20
          + bits x 19 12 * 2 ^ 12
          + bits x 20 20 * 2 ^ 11
          + bits x 30 21 * 2 ^ 1)
unfolding imm_j
imm_j-signed_field x =
    ap
      (λ n.
        bit_or (bit_or (bit_or n (bits x 30 21 * 2 ^ 1)) (bits x 20 20 * 2 ^ 11))
          (bits x 19 12 * 2 ^ 12)
        % u32)
      (sign_j (bits x 31 31) (omega arith))
    ∙ ap (λ n. n % u32)
        (join_j (bits x 31 31 * (2 ^ 44 - 1)) (bits x 30 21) (bits x 20 20) (bits x 19 12)
          (omega arith) (omega arith) (omega arith))
    ∙ ground arith

imm_u-upper : (x : ℕ) → imm_u x ≡ bits x 31 12 * 2 ^ 12
unfolding imm_u sext
imm_u-upper x = ground arith

-- The immediates of every instruction word: I, S, B and J immediates are the 12-, 12-, 13- and 21-bit
-- fields whose pieces the formats name, sign-extended to 32 bits, and a U immediate is the upper 20
-- bits of the word in their place.
pub imm-signed_field :
    (x : ℕ)
    → (imm_i x ≡ signed_field 12 (bits x 31 20))
      × (imm_s x ≡ signed_field 12 (bits x 31 25 * 2 ^ 5 + bits x 11 7))
      × (imm_b x
          ≡ signed_field 13 (
              bits x 31 31 * 2 ^ 12
              + bits x 7 7 * 2 ^ 11
              + bits x 30 25 * 2 ^ 5
              + bits x 11 8 * 2 ^ 1))
      × (imm_u x ≡ bits x 31 12 * 2 ^ 12)
      × (imm_j x
          ≡ signed_field 21 (
              bits x 31 31 * 2 ^ 20
              + bits x 19 12 * 2 ^ 12
              + bits x 20 20 * 2 ^ 11
              + bits x 30 21 * 2 ^ 1))
imm-signed_field x = (
  imm_i-signed_field x,
  imm_s-signed_field x,
  imm_b-signed_field x,
  imm_u-upper x,
  imm_j-signed_field x,
)
