-- ===== src/Expr/Meaning.antt =====
-- eval of ysyx-workbench/nemu/src/monitor/sdb/expr.c computes what a bracketed expression means.
use rv32i.Base.{
  ℕ, zero, suc, ◌+◌, ◌-◌, ◌≤◌, ◌<◌, ◌≡◌, refl, arith, Bool, true, false, ◌==◌, List, Option, none,
  some, Outcome, ok, then_ok, ap, ◌∙◌, lt→ltb, ==_self,
}
use rv32i.Machine.{Machine}
use rv32i.Riscv.Reg.{isa_reg_str2val}
use rv32i.Expr.Tokens.{
  TokenType, plus, minus, times, divide, eq, neq, and, reg, hex, dec, Token, nr_tokens,
}
use rv32i.Expr.Eval.{
  Libc, Array, token_at, check_parentheses, paren_loop, eval_leaf, apply_op, eval,
}
use rv32i.Expr.Tree.{
  Tree, leaf, node, size, is_operand, is_binary, Spells, operand_value, op_value, meaning,
}
use rv32i.Expr.Brackets.{lt→leb, operand-is_plain, size-pos, step-plain, check_parentheses-whole}
use rv32i.Expr.MainOp.{check_parentheses-split, get_main_op-split}

lt→ne : (a b : ℕ) → b < a → (a == b) ≡ false
lt→ne a b h = ground arith

one : (i : ℕ) → i + 1 - i ≡ 1
one i = omega arith

module _ (c : Libc) (m : Machine) where
  register_value :
      (o : Option ℕ)
      → (elim o as (λ _. Outcome ℕ) [ none ↦ ok 0 | some v ↦ ok v ])
        ≡ ok (elim o as (λ _. ℕ) [ none ↦ 0 | some v ↦ v ])
  register_value none = refl
  register_value (some v) = refl

  eval_leaf-typed :
      (type : TokenType) (str : List ℕ)
      → is_operand type ≡ true
      → eval_leaf c m (record { type = type; str = str })
        ≡ ok (operand_value c m (record { type = type; str = str }))
  unfolding eval_leaf
  eval_leaf-typed dec str h = refl
  eval_leaf-typed hex str h = refl
  eval_leaf-typed reg str h = register_value (isa_reg_str2val str m)
  eval_leaf-typed _ str h = cc

  eval_leaf-value :
      (t : Token) → is_operand t.type ≡ true → eval_leaf c m t ≡ ok (operand_value c m t)
  unfolding eval_leaf
  eval_leaf-value t h = eval_leaf-typed t.type t.str h

  apply_op-value :
      (op : TokenType) (x y : ℕ) → is_binary op ≡ true → apply_op m op x y ≡ ok (op_value op x y)
  unfolding apply_op
  apply_op-value plus x y h = refl
  apply_op-value minus x y h = refl
  apply_op-value times x y h = refl
  apply_op-value divide x y h = refl
  apply_op-value eq x y h = refl
  apply_op-value neq x y h = refl
  apply_op-value and x y h = refl
  apply_op-value _ x y h = cc

  module _ (tokens : Array) where
    token-ok : (i : ℕ) → i < nr_tokens → token_at tokens i ≡ ok (tokens i)
    unfolding token_at
    token-ok i small = rw (lt→ltb i nr_tokens small)

    -- The range gives the value, with enough fuel, and whatever is_bad_expression was.
    Gives : ℕ → ℕ → ℕ → ℕ → Type 0
    Gives fuel i end v =
        (bad : Bool) → (bad' : Bool) × (eval fuel c m tokens i end bad ≡ ok (v, bad'))

    check_parentheses-leaf :
        (t : Token) (i : ℕ) (bad : Bool)
        → Spells tokens i (leaf t)
        → i + 1 ≤ nr_tokens
        → check_parentheses tokens i (i + 1) bad ≡ ok (true, false)
    unfolding check_parentheses
    check_parentheses-leaf t i bad (same, operand) fits = rw (lt→leb i (i + 1) (omega arith)) (
        ap (λ n. paren_loop n tokens i 0 true) (one i)
        ∙ step-plain tokens 0 i 0 true (omega arith) (operand-is_plain (tokens i) t same operand)
        ∙ unfold paren_loop in refl)

    leaf-Gives :
        (t : Token) (fuel i : ℕ)
        → Spells tokens i (leaf t)
        → i + 1 ≤ nr_tokens
        → Gives (suc fuel) i (i + 1) (operand_value c m t)
    unfolding Gives eval
    leaf-Gives t fuel i (same, operand) fits bad = (
      false,
      rw
          (
            check_parentheses-leaf t i bad (same, operand) fits,
            lt→leb i (i + 1) (omega arith),
            ==_self (i + 1),
          )
          (then_ok _ (token-ok i (omega arith))
            ∙ then_ok _ (ap (eval_leaf c m) same ∙ eval_leaf-value t operand)),
    )

    split-Gives :
        (op : TokenType) (a b : Tree) (fuel i x y : ℕ)
        → Spells tokens i a
        → (tokens (i + size a)).type ≡ op
        → is_binary op ≡ true
        → Spells tokens (i + size a + 1) b
        → i + size a + 1 + size b ≤ nr_tokens
        → Gives fuel i (i + size a) x
        → Gives fuel (i + size a + 1) (i + size a + 1 + size b) y
        → Gives (suc fuel) i (i + size a + 1 + size b) (op_value op x y)
    unfolding Gives eval
    split-Gives op a b fuel i x y left mid binary right fits first second bad =
        let (bad₁, e₁) = get_main_op-split tokens op a b i left mid binary right fits false in
        let (bad₂, e₂) = first bad₁ in
        let (bad₃, e₃) = second bad₂ in
        (
          bad₃,
          rw
              (
                check_parentheses-split tokens op a b i bad left mid binary right fits,
                lt→leb i (i + size a + 1 + size b) (omega arith),
                lt→ne (i + size a + 1 + size b) (i + 1) (omega (arith, size-pos a, size-pos b)),
              )
              (then_ok _ e₁
                ∙ then_ok _ e₂
                ∙ then_ok _ e₃
                ∙ then_ok _ (token-ok (i + size a) (omega arith))
                ∙ then_ok _ (ap (λ o. apply_op m o x y) mid ∙ apply_op-value op x y binary)),
        )

    node-Gives :
        (op : TokenType) (a b : Tree) (fuel i v : ℕ)
        → Spells tokens i (node op a b)
        → i + size (node op a b) ≤ nr_tokens
        → Gives fuel (i + 1) (i + 1 + size a + 1 + size b) v
        → Gives (suc fuel) i (i + size (node op a b)) v
    unfolding Gives eval
    node-Gives op a b fuel i v sp fits inside bad =
        let (bad', e) = inside false in
        (
          bad',
          rw
              (
                check_parentheses-whole tokens op a b i sp fits bad,
                lt→leb i (i + size (node op a b)) (omega arith),
                lt→ne (i + size (node op a b)) (i + 1) (omega arith),
              )
              (ap (λ end. eval fuel c m tokens (i + 1) end false) (omega arith) ∙ e),
        )

    -- On tokens that spell a bracketed expression of operands and binary operators, eval returns what
    -- the expression means, with as much fuel as there are tokens and whatever is_bad_expression was.
    pub eval-meaning :
        (t : Tree) (fuel i : ℕ) (bad : Bool)
        → Spells tokens i t
        → i + size t ≤ nr_tokens
        → size t ≤ fuel
        → (bad' : Bool) × (eval fuel c m tokens i (i + size t) bad ≡ ok (meaning c m t, bad'))
    unfolding meaning Gives
    eval-meaning t zero i bad sp fits enough = absurd (omega (arith, size-pos t))
    eval-meaning (leaf t) (suc fuel) i bad sp fits enough = leaf-Gives t fuel i sp fits bad
    eval-meaning (node op a b) (suc zero) i bad sp fits enough = absurd (omega arith)
    eval-meaning (node op a b) (suc (suc fuel)) i bad sp fits enough =
        let (opening, left, mid, binary, right, closing) = sp in
        node-Gives op a b (suc fuel) i _ sp fits
          (split-Gives op a b fuel (i + 1) _ _ left mid binary right (omega arith)
            (λ bad₁. eval-meaning a fuel (i + 1) bad₁ left (omega arith) (omega arith))
            (λ bad₂.
              eval-meaning b fuel (i + 1 + size a + 1) bad₂ right (omega arith) (omega arith)))
          bad
