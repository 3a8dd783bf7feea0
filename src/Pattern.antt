-- ===== src/Pattern.antt =====
-- The pattern matcher of the instruction decoders: pattern_decode and the test of INSTPAT in
-- ysyx-workbench/nemu/include/cpu/decode.h.
pub mod Agrees
pub mod Decode
pub mod Hex
pub mod Parts
use rv32i.Base.{
  ℕ, zero, suc, ◌+◌, ◌*◌, ◌/◌, ◌%◌, ◌^◌, Bool, true, false, ◌==◌, ◌&&◌, ◌||◌, if◌then◌else◌, List,
  [], ◌∷◌, Outcome, ok, fail, assertion, and_then, bit_and, bit_or, of_bool, codes, Option, none,
  some,
}
use rv32i.Word.{u64}

pub record Pattern : Type 0 where
  pub key : ℕ
  pub mask : ℕ
  pub shift : ℕ

-- The assertion on a character of the pattern.
unfoldable pub is_pattern_char : ℕ → Bool
is_pattern_char c = c == b'0' || c == b'1' || c == b'?'

-- The digit that a character adds to key and mask.
unfoldable pub read_digit : ℕ → Pattern → Pattern
read_digit c p = record {
  key = bit_or (p.key * 2 % u64) (if c == b'1' then 1 else 0);
  mask = bit_or (p.mask * 2 % u64) (if c == b'?' then 0 else 1);
  shift = if c == b'?' then p.shift + 1 else 0;
}

-- macro(i) at a character of the pattern string; blanks are skipped.
unfoldable pub decode_char : ℕ → Pattern → Outcome Pattern
unfolding is_pattern_char read_digit
decode_char c p =
    if c == b' ' then ok p else (if is_pattern_char c then ok (read_digit c p) else fail assertion)

unfoldable pub finish : Pattern → Pattern
finish p = record { key = p.key / 2 ^ p.shift; mask = p.mask / 2 ^ p.shift; shift = p.shift }

-- macro64(0): 64 characters are looked at, and a pattern that is longer, or as long, is a panic.
unfoldable pub decode_chars : ℕ → List ℕ → Pattern → Outcome Pattern
unfolding decode_char finish
decode_chars zero str p = fail assertion
decode_chars (suc n) [] p = ok (finish p)
decode_chars (suc n) (c ∷ str) p = and_then (decode_char c p) λ q. decode_chars n str q

unfoldable pub pattern_decode : List ℕ → Outcome Pattern
unfolding decode_chars
pattern_decode str = decode_chars 64 str (record { key = 0; mask = 0; shift = 0 })

-- The test of INSTPAT.
unfoldable pub matches : Pattern → ℕ → Bool
matches p inst = bit_and (inst / 2 ^ p.shift) p.mask == p.key

-- One INSTPAT line: the pattern string, the operand type, and the operation of the body.
pub record Row (T O : Type 0) : Type 0 where
  pub pattern : List ℕ
  pub operands : T
  pub op : O

abbrev pub row : {T O : Type 0} → List ℕ → T → O → Row T O
row p t o = record { pattern = p; operands = t; op = o }

-- The rows are tried in order, and the first that matches is taken.
unfoldable pub select : {T O : Type 0} → List (Row T O) → ℕ → Outcome (Option (Row T O))
unfolding pattern_decode matches
select [] inst = ok none
select (row ∷ rows) inst =
    let rest = select rows inst in
    and_then (pattern_decode row.pattern) λ p. if matches p inst then ok (some row) else rest
