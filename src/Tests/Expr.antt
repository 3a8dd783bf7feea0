-- ===== src/Tests/Expr.antt =====
-- The tokens of a text, with a regexec that knows two of the rules, and the value of ((7-1)*3).
use rv32i.Base.{
  ℕ, zero, suc, true, ◌+◌, refl, ◌<◌, ◌≡◌, arith, ◌⊎◌, Bool, ◌==◌, if◌then◌else◌, List, [], ◌∷◌,
  none, some, ok, fail, host_overrun, codes,
}
use rv32i.Expr.Tokens.{TokenType, Token, Tokens, Regexec, Rule, rules, make_token}
use rv32i.Expr.Eval.{Array, eval}
use rv32i.Expr.Tree.{Tree, leaf, node, meaning}
use rv32i.Expr.Meaning.{eval-meaning}
use rv32i.Tests.Riscv.{addi_machine}
use rv32i.Tests.Debugger.{digit_libc}
use rv32i.Expr.Lexer.{AreNonempty, AreWithin, make_token-AreWithin}

-- One digit is a number of one character, whatever the rule.
abbrev one_digit : Regexec
one_digit r [] = none
one_digit r (c ∷ e) = if c == b'7' then some 1 else none

abbrev no_tokens : Tokens
no_tokens = record { tokens = λ i. record { type = TokenType.notype; str = [] }; nr_token = 0 }

one_digit-positive : (r e : List ℕ) (len : ℕ) → one_digit r e ≡ some len → 0 < len
one_digit-positive r [] len h = cc
one_digit-positive r (c ∷ e) len h = ground arith

one_digit-AreNonempty : (rs : List Rule) → AreNonempty one_digit rs
one_digit-AreNonempty [] = tt
one_digit-AreNonempty (r ∷ rs) = (one_digit-positive r.regex, one_digit-AreNonempty rs)

make_token-AreWithin_example :
    ((b : Bool) × (t' : Tokens) × (make_token one_digit (codes "77") no_tokens ≡ ok (b, t'))
      × AreWithin t')
    ⊎ (make_token one_digit (codes "77") no_tokens ≡ fail host_overrun)
make_token-AreWithin_example =
    make_token-AreWithin one_digit (codes "77") no_tokens (one_digit-AreNonempty rules)

abbrev token : TokenType → List ℕ → Token
token type str = record { type = type; str = str }

abbrev digit : ℕ → Token
digit d = token TokenType.dec ((b'0' + d) ∷ [])

abbrev difference : Tree
difference = node TokenType.minus (leaf (digit 7)) (leaf (digit 1))

abbrev product : Tree
product = node TokenType.times difference (leaf (digit 3))

abbrev nth : List Token → Array
nth [] i = token TokenType.notype []
nth (t ∷ ts) zero = t
nth (t ∷ ts) (suc i) = nth ts i

abbrev product_tokens : Array
product_tokens = nth (
    token TokenType.lparen (codes "(")
    ∷ token TokenType.lparen (codes "(")
    ∷ digit 7
    ∷ token TokenType.minus (codes "-")
    ∷ digit 1
    ∷ token TokenType.rparen (codes ")")
    ∷ token TokenType.times (codes "*")
    ∷ digit 3
    ∷ token TokenType.rparen (codes ")")
    ∷ [])

product-meaning : meaning digit_libc addi_machine product ≡ 18
unfolding meaning
product-meaning = refl

eval-meaning_example :
    (bad' : Bool) × (eval 9 digit_libc addi_machine product_tokens 0 9 true
      ≡ ok (meaning digit_libc addi_machine product, bad'))
eval-meaning_example =
    eval-meaning digit_libc addi_machine product_tokens product 9 0 true
      (refl, (refl, (refl, refl), refl, refl, (refl, refl), refl), refl, refl, (refl, refl), refl)
      (omega arith) (omega arith)
