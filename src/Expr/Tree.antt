-- ===== src/Expr/Tree.antt =====
-- Bracketed expressions, and tokens that spell them: for eval of
-- ysyx-workbench/nemu/src/monitor/sdb/expr.c.
use rv32i.Base.{
  ℕ, ◌+◌, ◌-◌, ◌*◌, ◌/◌, ◌%◌, ◌≡◌, Bool, true, false, ◌==◌, ◌&&◌, not, if◌then◌else◌, none, some,
  of_bool,
}
use rv32i.Word.{u32}
use rv32i.Machine.{Machine}
use rv32i.Riscv.Reg.{isa_reg_str2val}
use rv32i.Expr.Tokens.{
  TokenType, plus, minus, times, divide, lparen, rparen, eq, neq, and, reg, hex, dec, Token,
}
use rv32i.Expr.Eval.{Libc, Array}

-- A number or a register, or two expressions and an operator in brackets.
pub data Tree : Type 0 where
  leaf : Token → Tree
  node : TokenType → Tree → Tree → Tree

abbrev pub size : Tree → ℕ
size (leaf t) = 1
size (node op a b) = 1 + (size a + (1 + (size b + 1)))

abbrev pub is_operand : TokenType → Bool
is_operand dec = true
is_operand hex = true
is_operand reg = true
is_operand _ = false

abbrev pub is_binary : TokenType → Bool
is_binary plus = true
is_binary minus = true
is_binary times = true
is_binary divide = true
is_binary eq = true
is_binary neq = true
is_binary and = true
is_binary _ = false

-- The tokens from `i` on spell the expression.
abbrev pub Spells : Array → ℕ → Tree → Type 0
Spells tokens i (leaf t) = (tokens i ≡ t) × (is_operand t.type ≡ true)
Spells tokens i (node op a b) =
    ((tokens i).type ≡ lparen)
    × Spells tokens (i + 1) a
    × ((tokens (i + 1 + size a)).type ≡ op)
    × (is_binary op ≡ true)
    × Spells tokens (i + 1 + size a + 1) b
    × ((tokens (i + 1 + size a + 1 + size b)).type ≡ rparen)

-- What an operand and an operator mean, on 32-bit words; a division by 0 is 0, and so is a register
-- with an unknown name.
abbrev pub operand_value : Libc → Machine → Token → ℕ
operand_value c m t = elim t.type [
  | dec ↦ c.atoi t.str
  | hex ↦ c.scan_hex t.str
  | _ ↦ elim (isa_reg_str2val t.str m) [ none ↦ 0 | some v ↦ v ]
]

abbrev pub op_value : TokenType → ℕ → ℕ → ℕ
op_value plus x y = (x + y) % u32
op_value minus x y = (x + u32 - y) % u32
op_value times x y = x * y % u32
op_value divide x y = if y == 0 then 0 else x / y
op_value eq x y = of_bool (x == y)
op_value neq x y = of_bool (not (x == y))
op_value _ x y = of_bool (not (x == 0) && not (y == 0))

unfoldable pub meaning : Libc → Machine → Tree → ℕ
meaning c m (leaf t) = operand_value c m t
meaning c m (node op a b) = op_value op (meaning c m a) (meaning c m b)
