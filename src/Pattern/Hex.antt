-- ===== src/Pattern/Hex.antt =====
-- pattern_decode_hex of ysyx-workbench/nemu/include/cpu/decode.h.
pub mod Digits
pub mod Expand
use native.Mathlib.Nat.{add-zero}
use rv32i.Base.{
  ℕ, zero, suc, ◌+◌, ◌-◌, ◌*◌, ◌/◌, ◌%◌, ◌≤◌, ◌<◌, ◌≡◌, refl, arith, Bool, true, false, ◌==◌, ◌&&◌,
  ◌||◌, if◌then◌else◌, leb, List, [], ◌∷◌, ◌++◌, length, Outcome, ok, fail, assertion, and_then,
  then_ok, bit_or, ap, ap₂, sym, ◌∙◌, ◌^◌, ◌⊎◌, inl, inr,
}
use rv32i.Base.Bits.{bit_or-disjoint}
use rv32i.Word.{u64}
use rv32i.Pattern.{
  Pattern, decode_char, read_digit, is_pattern_char, finish, decode_chars, pattern_decode,
}

unfoldable pub is_decimal : ℕ → Bool
is_decimal c = leb b'0' c && leb c b'9'

unfoldable pub is_hex_char : ℕ → Bool
unfolding is_decimal
is_hex_char c = is_decimal c || (leb b'a' c && leb c b'f') || c == b'?'

unfoldable pub hex_value : ℕ → ℕ
unfolding is_decimal
hex_value c = if c == b'?' then 0 else (if is_decimal c then c - b'0' else c - b'a' + 10)

unfoldable pub read_hex_digit : ℕ → Pattern → Pattern
unfolding hex_value
read_hex_digit c p = record {
  key = bit_or (p.key * 16 % u64) (hex_value c);
  mask = bit_or (p.mask * 16 % u64) (if c == b'?' then 0 else 15);
  shift = if c == b'?' then p.shift + 4 else 0;
}

-- macro(i) of pattern_decode_hex.
unfoldable pub decode_hex_char : ℕ → Pattern → Outcome Pattern
unfolding is_hex_char read_hex_digit
decode_hex_char c p =
    if c == b' ' then ok p else (if is_hex_char c then ok (read_hex_digit c p) else fail assertion)

-- macro16(0).
unfoldable pub decode_hex_chars : ℕ → List ℕ → Pattern → Outcome Pattern
unfolding decode_hex_char finish
decode_hex_chars zero str p = fail assertion
decode_hex_chars (suc n) [] p = ok (finish p)
decode_hex_chars (suc n) (c ∷ str) p = and_then (decode_hex_char c p) λ q. decode_hex_chars n str q

unfoldable pub pattern_decode_hex : List ℕ → Outcome Pattern
unfolding decode_hex_chars
pattern_decode_hex str = decode_hex_chars 16 str (record { key = 0; mask = 0; shift = 0 })
