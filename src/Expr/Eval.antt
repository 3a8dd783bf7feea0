-- ===== src/Expr/Eval.antt =====
-- check_parentheses, get_main_op, eval and expr of ysyx-workbench/nemu/src/monitor/sdb/expr.c. The
-- C library's atoi and sscanf("%x") are parameters, as regexec is. Each function that calls
-- check_parentheses takes and returns is_bad_expression.
use rv32i.Base.{
  ℕ, zero, suc, ◌+◌, ◌-◌, ◌/◌, Bool, true, false, ◌==◌, ◌&&◌, not, if◌then◌else◌, ltb, leb, List,
  [], ◌∷◌, Option, none, some, Outcome, ok, fail, assertion, host_overrun, out_of_fuel, and_then,
  of_bool,
}
use rv32i.Word.{add32, sub32, mul32, neg32}
use rv32i.Machine.{Machine}
use rv32i.Memory.{in_pmem, paddr_read}
use rv32i.Riscv.Reg.{isa_reg_str2val}
use rv32i.Expr.Tokens.{
  TokenType, plus, minus, times, divide, lparen, rparen, eq, neq, and, reg, hex, dec, negate, deref,
  Token, Tokens, Regexec, nr_tokens, make_token, tokenise,
}

pub record Libc : Type 0 where
  pub regexec : Regexec
  pub atoi : List ℕ → ℕ
  pub scan_hex : List ℕ → ℕ

abbrev pub Array : Type 0
Array = ℕ → Token

-- tokens[i]
unfoldable pub token_at : Array → ℕ → Outcome Token
token_at tokens i = if ltb i nr_tokens then ok (tokens i) else fail host_overrun

abbrev pub depth_step : TokenType → ℕ → Option ℕ
depth_step lparen stack = some (stack + 1)
depth_step rparen zero = none
depth_step rparen (suc stack) = some stack
depth_step _ stack = some stack

-- The loop of check_parentheses over `rounds` tokens from `i` on: the result and is_bad_expression.
unfoldable pub paren_loop : ℕ → Array → ℕ → ℕ → Bool → Outcome (Bool × Bool)
unfolding token_at
paren_loop zero tokens i stack full = ok (if stack == 0 then (full, false) else (false, true))
paren_loop (suc rounds) tokens i stack full = and_then (token_at tokens i) λ t.
    elim (depth_step t.type stack) [
      | none ↦ ok (false, true)
      | some depth ↦
          paren_loop rounds tokens (i + 1) depth
            (if depth == 0 && not (rounds == 0) then false else full)
    ]

unfoldable pub check_parentheses : Array → ℕ → ℕ → Bool → Outcome (Bool × Bool)
unfolding paren_loop
check_parentheses tokens p end is_bad =
    if leb end p then ok (false, is_bad) else paren_loop (end - p) tokens p 0 true

-- `none` stands for -1.
unfoldable pub get_op_precedence : TokenType → Option ℕ
get_op_precedence lparen = some 0
get_op_precedence rparen = some 0
get_op_precedence negate = some 1
get_op_precedence deref = some 1
get_op_precedence times = some 2
get_op_precedence divide = some 2
get_op_precedence plus = some 3
get_op_precedence minus = some 3
get_op_precedence eq = some 4
get_op_precedence neq = some 4
get_op_precedence and = some 5
get_op_precedence _ = none

-- while (check_parentheses(i, j) == false) j++: the first j that closes the bracket at i. Where no
-- bracket closes it, j runs past the array before the fuel ends.
unfoldable pub skip_loop : ℕ → Array → ℕ → ℕ → Bool → Outcome (ℕ × Bool)
unfolding check_parentheses
skip_loop zero tokens i j is_bad = fail out_of_fuel
skip_loop (suc fuel) tokens i j is_bad =
    and_then (check_parentheses tokens i (j + 1) is_bad) λ (full, bad).
      let rest : Outcome (ℕ × Bool) = skip_loop fuel tokens i (j + 1) bad in
      if full then ok (j, bad) else rest

-- precedence >= that of the token on top of the stack, or an empty stack.
unfoldable pub pushes : Array → List ℕ → ℕ → Bool
unfolding get_op_precedence
pushes tokens [] precedence = true
pushes tokens (top ∷ stack) precedence = elim (get_op_precedence (tokens top).type) [
  | none ↦ true
  | some below ↦ leb below precedence
]

-- The loop of get_main_op, with the stack's top first.
unfoldable pub main_op_loop : ℕ → Array → ℕ → ℕ → List ℕ → Bool → Outcome (List ℕ × Bool)
unfolding token_at get_op_precedence skip_loop pushes
main_op_loop zero tokens i end stack is_bad = fail out_of_fuel
main_op_loop (suc fuel) tokens i end stack is_bad =
    let rest : Outcome (List ℕ × Bool) = and_then (token_at tokens i) λ t.
      elim (get_op_precedence t.type) [
        | none ↦ main_op_loop fuel tokens (i + 1) end stack is_bad
        | some zero ↦ and_then (skip_loop (nr_tokens + 1) tokens i (i + 1) is_bad) λ (j, bad).
            (if ltb j end then main_op_loop fuel tokens (j + 1) end stack bad else fail assertion)
        | some (suc k) ↦
            main_op_loop fuel tokens (i + 1) end
              (if pushes tokens stack (suc k) then i ∷ stack else stack) is_bad
      ] in
    if leb end i then ok (stack, is_bad) else rest

abbrev pub top_or_zero : List ℕ → ℕ
top_or_zero [] = 0
top_or_zero (top ∷ stack) = top

unfoldable pub get_main_op : Array → ℕ → ℕ → Bool → Outcome (ℕ × Bool)
get_main_op tokens p end is_bad =
    and_then (main_op_loop (nr_tokens + 1) tokens p end [] is_bad)
      λ (stack, bad). ok (top_or_zero stack, bad)

-- A range of one token.
unfoldable pub eval_leaf : Libc → Machine → Token → Outcome ℕ
eval_leaf c m t = elim t.type [
  | dec ↦ ok (c.atoi t.str)
  | hex ↦ ok (c.scan_hex t.str)
  | reg ↦ elim (isa_reg_str2val t.str m) [ none ↦ ok 0 | some v ↦ ok v ]
  | _ ↦ fail assertion
]

-- The switch on the main operator.
unfoldable pub apply_op : Machine → TokenType → ℕ → ℕ → Outcome ℕ
unfolding add32 sub32 mul32 neg32 in_pmem paddr_read
apply_op m plus a b = ok (add32 a b)
apply_op m minus a b = ok (sub32 a b)
apply_op m times a b = ok (mul32 a b)
apply_op m divide a b = ok (if b == 0 then 0 else a / b)
apply_op m eq a b = ok (of_bool (a == b))
apply_op m neq a b = ok (of_bool (not (a == b)))
apply_op m and a b = ok (of_bool (not (a == 0) && not (b == 0)))
apply_op m negate a b = ok (neg32 b)
apply_op m deref a b = if in_pmem b then and_then (paddr_read b 4 m) (λ (v, _). ok v) else ok 0
apply_op m _ a b = ok 0

-- The recursion of eval goes as deep as its fuel.
unfoldable pub eval : ℕ → Libc → Machine → Array → ℕ → ℕ → Bool → Outcome (ℕ × Bool)
eval zero c m tokens p end is_bad = fail out_of_fuel
eval (suc fuel) c m tokens p end is_bad =
    and_then (check_parentheses tokens p end is_bad) λ (full, bad).
      let inside : Outcome (ℕ × Bool) = eval fuel c m tokens (p + 1) (end - 1) bad in
      let split : Outcome (ℕ × Bool) = and_then (get_main_op tokens p end bad) λ (op, bad₁).
        and_then (eval fuel c m tokens p op bad₁) λ (val1, bad₂).
          and_then (eval fuel c m tokens (op + 1) end bad₂) λ (val2, bad₃).
            and_then (token_at tokens op)
              λ t. and_then (apply_op m t.type val1 val2) λ v. ok (v, bad₃) in
      if not full && bad
      then ok (0, bad)
      else if leb end p
      then ok (0, bad)
      else if end == p + 1
      then and_then (token_at tokens p) (λ t. and_then (eval_leaf c m t) λ v. ok (v, bad))
      else if full
      then inside
      else split

-- The static state of the file.
pub record ExprState : Type 0 where
  pub table : Tokens
  pub is_bad : Bool

-- expr: the value, *success, and the static state.
unfoldable pub expr : ℕ → Libc → Machine → List ℕ → ExprState → Outcome (ℕ × Bool × ExprState)
unfolding make_token tokenise eval
expr fuel c m e s = and_then (make_token c.regexec e s.table) λ (matched, t).
    if matched
    then (let t' = tokenise t in
        and_then (eval fuel c m t'.tokens 0 t'.nr_token s.is_bad)
          λ (v, bad). ok (v, true, record { table = t'; is_bad = bad }))
    else ok (0, false, record s { table = t })
