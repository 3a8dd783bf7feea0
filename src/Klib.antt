-- ===== src/Klib.antt =====
-- ysyx-workbench/abstract-machine/klib/src/stdlib.c, where int and long have 32 bits.
pub mod Atoi
use rv32i.Base.{
  ℕ, ◌+◌, ◌-◌, ◌*◌, ◌/◌, ◌%◌, ◌^◌, Bool, ◌&&◌, ltb, leb, ◌==◌, if◌then◌else◌, List, [], ◌∷◌, Option,
  none, some,
}
use rv32i.Word.{u32, neg32}

-- The static next after a call of rand, and its result.
unfoldable pub rand : ℕ → ℕ × ℕ
rand next = let next' = (next * 1103515245 + 12345) % u32 in (next', next' / 65536 % 32768)

-- The static next after a call of srand.
unfoldable pub srand : ℕ → ℕ
srand seed = seed

-- An int as a word; the least int has no absolute value in C.
unfoldable pub abs : ℕ → Option ℕ
abs x = if x == 2 ^ 31 then none else some (if ltb x (2 ^ 31) then x else u32 - x)

unfoldable pub skip_blanks : List ℕ → List ℕ
skip_blanks [] = []
skip_blanks (c ∷ s) = let rest = skip_blanks s in if c == b' ' then rest else c ∷ s

abbrev pub is_digit : ℕ → Bool
is_digit c = leb b'0' c && leb c b'9'

-- The loop over the digits of a text without its final NUL. The sum of ten times x and the
-- character is a signed int, which must not overflow before '0' is subtracted.
unfoldable pub digit_loop : List ℕ → ℕ → Option ℕ
digit_loop [] x = some x
digit_loop (c ∷ s) x =
    let rest = digit_loop s (x * 10 + c - b'0') in
    if is_digit c then (if ltb (x * 10 + c) (2 ^ 31) then rest else none) else some x

unfoldable pub atoi : List ℕ → Option ℕ
unfolding skip_blanks digit_loop
atoi s = digit_loop (skip_blanks s) 0
