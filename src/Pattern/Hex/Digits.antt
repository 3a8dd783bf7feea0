-- ===== src/Pattern/Hex/Digits.antt =====
-- The characters that pattern_decode_hex and pattern_decode read: a digit in hexadecimal is four binary
-- ones.
use native.Mathlib.Nat.{add-zero}
use rv32i.Base.{
  ℕ, zero, suc, ◌+◌, ◌*◌, ◌/◌, ◌%◌, ◌≤◌, ◌<◌, ◌≡◌, refl, arith, Bool, true, false, ◌==◌,
  if◌then◌else◌, List, [], ◌∷◌, length, Outcome, ok, fail, and_then, then_ok, bit_or, ap, ap₂, ◌∙◌,
  ◌^◌, ◌⊎◌,
}
use rv32i.Base.Bits.{bit_or-disjoint}
use rv32i.Word.{u64}
use rv32i.Pattern.Hex.{is_decimal, is_hex_char, hex_value, read_hex_digit, decode_hex_char}
use rv32i.Pattern.{Pattern, decode_char, read_digit, is_pattern_char, decode_chars}

-- The four binary digits of a number, and what stands for a character of a pattern in hexadecimal.
abbrev pub binary : ℕ → List ℕ → List ℕ
binary v rest = (b'0' + v / 8 % 2) ∷ (b'0' + v / 4 % 2) ∷ (b'0' + v / 2 % 2) ∷ (b'0' + v % 2) ∷ rest

unfoldable pub expand : List ℕ → List ℕ
unfolding hex_value
expand [] = []
expand (c ∷ str) =
    let rest = expand str in
    if c == b' '
    then c ∷ rest
    else (if c == b'?' then b'?' ∷ b'?' ∷ b'?' ∷ b'?' ∷ rest else binary (hex_value c) rest)

and_then_congr :
    {A B : Type 0} (o : Outcome A) {f g : A → Outcome B}
    → ((a : A) → f a ≡ g a)
    → and_then o f ≡ and_then o g
and_then_congr (ok a) h = h a
and_then_congr (fail e) h = refl

-- With rounds enough for the string and its end, their number does not matter.
pub decode_chars-rounds :
    (n m : ℕ) (str : List ℕ) (p : Pattern)
    → length str < n
    → length str < m
    → decode_chars n str p ≡ decode_chars m str p
unfolding decode_chars
decode_chars-rounds zero m str p l r = absurd (omega arith)
decode_chars-rounds (suc n) zero str p l r = absurd (omega arith)
decode_chars-rounds (suc n) (suc m) [] p l r = refl
decode_chars-rounds (suc n) (suc m) (c ∷ str) p l r =
    and_then_congr (decode_char c p) λ q. decode_chars-rounds n m str q (omega arith) (omega arith)

or_2 : (k b : ℕ) → b < 2 → bit_or (k * 2 % u64) b ≡ k * 2 % u64 + b
or_2 k b lt = ap (λ n. bit_or n b) whole ∙ bit_or-disjoint 1 (k % 2 ^ 63) b lt ∙ omega arith
  where
    whole : k * 2 % u64 ≡ k % 2 ^ 63 * 2 ^ 1
    whole = omega arith

or_16 : (k b : ℕ) → b < 16 → bit_or (k * 16 % u64) b ≡ k * 16 % u64 + b
or_16 k b lt = ap (λ n. bit_or n b) whole ∙ bit_or-disjoint 4 (k % 2 ^ 60) b lt ∙ omega arith
  where
    whole : k * 16 % u64 ≡ k % 2 ^ 60 * 2 ^ 4
    whole = omega arith

-- A character of a binary digit.
decode_char-bit :
    (b : ℕ) (p : Pattern)
    → b < 2
    → decode_char (b'0' + b) p
      ≡ ok (record { key = p.key * 2 % u64 + b; mask = p.mask * 2 % u64 + 1; shift = 0 })
unfolding decode_char read_digit is_pattern_char
decode_char-bit zero p lt =
    ap₂ (λ k m. ok (record { key = k; mask = m; shift = 0 })) (or_2 p.key 0 lt)
      (or_2 p.mask 1 (omega arith))
decode_char-bit (suc zero) p lt =
    ap₂ (λ k m. ok (record { key = k; mask = m; shift = 0 })) (or_2 p.key 1 lt)
      (or_2 p.mask 1 (omega arith))
decode_char-bit (suc (suc b)) p lt = absurd (omega arith)

pub decode_char-any :
    (p : Pattern)
    → decode_char b'?' p
      ≡ ok (record { key = p.key * 2 % u64; mask = p.mask * 2 % u64; shift = p.shift + 1 })
unfolding decode_char read_digit is_pattern_char
decode_char-any p =
    ap₂ (λ k m. ok (record { key = k; mask = m; shift = p.shift + 1 }))
      (or_2 p.key 0 (omega arith) ∙ add-zero _) (or_2 p.mask 0 (omega arith) ∙ add-zero _)

abbrev pub IsHexDigit : ℕ → Type 0
IsHexDigit c = ((b'0' ≤ c) × (c ≤ b'9')) ⊎ ((b'a' ≤ c) × (c ≤ b'f'))

pub record IsRead (c : ℕ) : Type 0 where
  pub not_blank : (c == b' ') ≡ false
  pub not_any : (c == b'?') ≡ false
  pub good : is_hex_char c ≡ true
  pub value : hex_value c < 16

pub digit-IsRead : (c : ℕ) → IsHexDigit c → IsRead c
unfolding hex_value is_decimal is_hex_char
digit-IsRead c h = record {
  not_blank = ground (arith, h);
  not_any = ground (arith, h);
  good = ground (arith, h);
  value = ground (arith, h);
}

abbrev digits_read : Bool → ℕ → Pattern → Pattern
digits_read any k p = record {
  key = k;
  mask = bit_or (p.mask * 16 % u64) (if any then 0 else 15);
  shift = if any then p.shift + 4 else 0;
}

pub decode_hex_char-digit :
    (c : ℕ) (p : Pattern)
    → IsRead c
    → decode_hex_char c p
      ≡ ok (record {
        key = p.key * 16 % u64 + hex_value c;
        mask = p.mask * 16 % u64 + 15;
        shift = 0;
      })
unfolding decode_hex_char read_hex_digit
decode_hex_char-digit c p r =
    rw (r.not_blank, r.good)
      (ap₂ (λ k any. ok (digits_read any k p)) (or_16 p.key (hex_value c) r.value) r.not_any
        ∙ ap (λ m. ok (record { key = p.key * 16 % u64 + hex_value c; mask = m; shift = 0 }))
            (or_16 p.mask 15 (omega arith)))

pub decode_hex_char-any :
    (p : Pattern)
    → decode_hex_char b'?' p
      ≡ ok (record { key = p.key * 16 % u64; mask = p.mask * 16 % u64; shift = p.shift + 4 })
unfolding decode_hex_char read_hex_digit is_hex_char is_decimal hex_value
decode_hex_char-any p =
    ap₂ (λ k m. ok (record { key = k; mask = m; shift = p.shift + 4 }))
      (or_16 p.key 0 (omega arith) ∙ add-zero _) (or_16 p.mask 0 (omega arith) ∙ add-zero _)

-- Four binary digits come to one in hexadecimal.
pub decode_chars-binary :
    (n v : ℕ) (rest : List ℕ) (p : Pattern)
    → v < 16
    → decode_chars (suc (suc (suc (suc n)))) (binary v rest) p
      ≡ decode_chars n rest
          (record { key = p.key * 16 % u64 + v; mask = p.mask * 16 % u64 + 15; shift = 0 })
unfolding decode_chars
decode_chars-binary n v rest p lt =
    then_ok _ (decode_char-bit (v / 8 % 2) p (omega arith))
    ∙ then_ok _ (decode_char-bit (v / 4 % 2) _ (omega arith))
    ∙ then_ok _ (decode_char-bit (v / 2 % 2) _ (omega arith))
    ∙ then_ok _ (decode_char-bit (v % 2) _ (omega arith))
    ∙ ap₂ (λ k m. decode_chars n rest (record { key = k; mask = m; shift = 0 })) (omega arith)
        (omega arith)

abbrev any_read : Pattern → Pattern
any_read p = record { key = p.key * 2 % u64; mask = p.mask * 2 % u64; shift = p.shift + 1 }

decode_chars-any_step :
    (n : ℕ) (rest : List ℕ) (p : Pattern)
    → decode_chars (suc n) (b'?' ∷ rest) p ≡ decode_chars n rest (any_read p)
unfolding decode_chars
decode_chars-any_step n rest p = then_ok (decode_chars n rest) (decode_char-any p)

pub decode_chars-any :
    (n : ℕ) (rest : List ℕ) (p : Pattern)
    → decode_chars (suc (suc (suc (suc n)))) (b'?' ∷ b'?' ∷ b'?' ∷ b'?' ∷ rest) p
      ≡ decode_chars n rest
          (record { key = p.key * 16 % u64; mask = p.mask * 16 % u64; shift = p.shift + 4 })
decode_chars-any n rest p =
    decode_chars-any_step (suc (suc (suc n))) (b'?' ∷ b'?' ∷ b'?' ∷ rest) p
    ∙ decode_chars-any_step (suc (suc n)) (b'?' ∷ b'?' ∷ rest) (any_read p)
    ∙ decode_chars-any_step (suc n) (b'?' ∷ rest) (any_read (any_read p))
    ∙ decode_chars-any_step n rest (any_read (any_read (any_read p)))
    ∙ ap₂
        (λ k m. decode_chars n rest (record { key = k; mask = m; shift = p.shift + 1 + 1 + 1 + 1 }))
        (four_shifts p.key) (four_shifts p.mask)
    ∙ ap
        (λ s.
          decode_chars n rest
            (record { key = p.key * 16 % u64; mask = p.mask * 16 % u64; shift = s }))
        four_more
  where
    four_shifts : (k : ℕ) → k * 2 % u64 * 2 % u64 * 2 % u64 * 2 % u64 ≡ k * 16 % u64
    four_shifts k = omega arith

    four_more : p.shift + 1 + 1 + 1 + 1 ≡ p.shift + 4
    four_more = omega arith
