-- ===== src/Expr/MainOp.antt =====
-- get_main_op of ysyx-workbench/nemu/src/monitor/sdb/expr.c on two bracketed expressions with an
-- operator between.
use rv32i.Base.{
  ℕ, zero, suc, ◌+◌, ◌-◌, ◌≤◌, ◌<◌, ◌≡◌, refl, arith, Bool, true, false, if◌then◌else◌, ltb, leb,
  List, [], ◌∷◌, Option, none, some, Outcome, ok, fail, assertion, and_then, ap, ◌∙◌, lt→ltb,
}
use rv32i.Expr.Tokens.{
  TokenType, plus, minus, times, divide, lparen, eq, neq, and, reg, hex, dec, nr_tokens,
}
use rv32i.Expr.Eval.{
  Array, token_at, check_parentheses, paren_loop, get_op_precedence, skip_loop, pushes,
  main_op_loop, get_main_op, top_or_zero,
}
use rv32i.Expr.Tree.{Tree, leaf, node, size, is_operand, is_binary, Spells}
use rv32i.Expr.Brackets.{
  lt→leb, still_full, binary-is_plain, step-plain, paren_loop-tree, check_parentheses-whole,
  check_parentheses-part,
}

operand-precedence : (t : TokenType) → is_operand t ≡ true → get_op_precedence t ≡ none
unfolding get_op_precedence
operand-precedence dec h = refl
operand-precedence hex h = refl
operand-precedence reg h = refl
operand-precedence _ h = cc

binary-precedence :
    (t : TokenType) → is_binary t ≡ true → (k : ℕ) × (get_op_precedence t ≡ some (suc k))
unfolding get_op_precedence
binary-precedence plus h = (2, refl)
binary-precedence minus h = (2, refl)
binary-precedence times h = (1, refl)
binary-precedence divide h = (1, refl)
binary-precedence eq h = (3, refl)
binary-precedence neq h = (3, refl)
binary-precedence and h = (4, refl)
binary-precedence _ h = cc

last : (j i n : ℕ) → j + 1 + 0 ≡ i + n → j + 1 ≡ i + n
last j i n e = omega arith

leb_self : (k : ℕ) → leb k k ≡ true
leb_self k = ground arith

not_full : (r : ℕ) (full : Bool) → still_full 0 (suc r) full ≡ false
not_full r full = ground arith

never_full : (r : ℕ) → still_full 0 r false ≡ false
never_full r = ground arith

module _ (tokens : Array) where
  -- The range of an operator between two expressions is no bracket.
  pub check_parentheses-split :
      (op : TokenType) (a b : Tree) (i : ℕ) (bad : Bool)
      → Spells tokens i a
      → (tokens (i + size a)).type ≡ op
      → is_binary op ≡ true
      → Spells tokens (i + size a + 1) b
      → i + size a + 1 + size b ≤ nr_tokens
      → check_parentheses tokens i (i + size a + 1 + size b) bad ≡ ok (false, false)
  unfolding check_parentheses
  check_parentheses-split op a b i bad left mid binary right fits =
      rw (lt→leb i (i + size a + 1 + size b) (omega arith)) (
        paren_loop-tree tokens a (i + size a + 1 + size b - i) i 0 (suc (size b)) true (omega arith)
          left (omega arith)
        ∙ ap (paren_loop (suc (size b)) tokens (i + size a) 0) (not_full (size b) true)
        ∙ step-plain tokens (size b) (i + size a) 0 false (omega arith)
            (binary-is_plain _ op mid binary)
        ∙ ap (paren_loop (size b) tokens (i + size a + 1) 0) (never_full (size b))
        ∙ paren_loop-tree tokens b (size b) (i + size a + 1) 0 0 false (omega arith) right
            (omega arith)
        ∙ unfold paren_loop in refl)

  -- The loop that looks for the closing bracket, `gap` tokens before it.
  skip_loop-close :
      (op : TokenType) (a b : Tree) (i : ℕ)
      → Spells tokens i (node op a b)
      → i + size (node op a b) ≤ nr_tokens
      → (gap fuel j : ℕ) (bad : Bool) → gap < fuel
      → i ≤ j
      → j + 1 + gap ≡ i + size (node op a b)
      → skip_loop fuel tokens i j bad ≡ ok (j + gap, false)
  unfolding skip_loop
  skip_loop-close op a b i sp fits gap zero j bad enough le e = absurd (omega arith)
  skip_loop-close op a b i sp fits zero (suc fuel) j bad enough le e =
      rw
        (ap (λ k. check_parentheses tokens i k bad) (last j i _ e)
          ∙ check_parentheses-whole tokens op a b i sp fits bad)
        (ap (λ k. ok (k, false)) (omega arith))
  skip_loop-close op a b i sp fits (suc gap) (suc fuel) j bad enough le e =
      rw (check_parentheses-part tokens op a b i sp fits j bad le (omega arith)) (
        skip_loop-close op a b i sp fits gap fuel (j + 1) true (omega arith) (omega arith)
          (omega arith)
        ∙ ap (λ k. ok (k, false)) (omega arith))

  -- The rest of the loop of get_main_op at a token with the given precedence.
  abbrev after : ℕ → ℕ → ℕ → List ℕ → Bool → Option ℕ → Outcome (List ℕ × Bool)
  after fuel i end stack bad o = elim o [
    | none ↦ main_op_loop fuel tokens (i + 1) end stack bad
    | some zero ↦ and_then (skip_loop (nr_tokens + 1) tokens i (i + 1) bad) λ (j, bad').
        (if ltb j end then main_op_loop fuel tokens (j + 1) end stack bad' else fail assertion)
    | some (suc k) ↦
        main_op_loop fuel tokens (i + 1) end
          (if pushes tokens stack (suc k) then i ∷ stack else stack) bad
  ]

  main_op_loop-after :
      (fuel i end : ℕ) (stack : List ℕ) (bad : Bool) (o : Option ℕ)
      → i < end
      → i < nr_tokens
      → get_op_precedence (tokens i).type ≡ o
      → main_op_loop (suc fuel) tokens i end stack bad ≡ after fuel i end stack bad o
  unfolding main_op_loop token_at
  main_op_loop-after fuel i end stack bad o lt small e =
      rw (lt→leb i end lt, lt→ltb i nr_tokens small) (ap (after fuel i end stack bad) e)

  main_op_loop-end :
      (fuel end : ℕ) (stack : List ℕ) (bad : Bool)
      → main_op_loop (suc fuel) tokens end end stack bad ≡ ok (stack, bad)
  unfolding main_op_loop
  main_op_loop-end fuel end stack bad = rw (leb_self end)

  lparen_precedence :
      (i : ℕ) → (tokens i).type ≡ lparen → get_op_precedence (tokens i).type ≡ some 0
  lparen_precedence i e = ap get_op_precedence e ∙ unfold get_op_precedence in refl

  -- A bracketed expression is passed over in one round.
  main_op_loop-tree :
      (t : Tree) (fuel i end : ℕ) (stack : List ℕ) (bad : Bool)
      → Spells tokens i t
      → i + size t ≤ end
      → i + size t ≤ nr_tokens
      → (bad' : Bool) × (main_op_loop (suc fuel) tokens i end stack bad
          ≡ main_op_loop fuel tokens (i + size t) end stack bad')
  main_op_loop-tree (leaf t) fuel i end stack bad (same, operand) le fits = (
    bad,
    main_op_loop-after fuel i end stack bad none (omega arith) (omega arith)
        (ap (λ u. get_op_precedence u.type) same ∙ operand-precedence t.type operand),
  )
  main_op_loop-tree (node op a b) fuel i end stack bad sp le fits =
      let gap = size a + size b + 1 in
      (
        false,
        main_op_loop-after fuel i end stack bad (some 0) (omega arith) (omega arith)
              (lparen_precedence i sp.0)
            ∙ rw
                (
                  skip_loop-close op a b i sp fits gap (nr_tokens + 1) (i + 1) bad (omega arith)
                      (omega arith) (omega arith),
                  lt→ltb (i + 1 + gap) end (omega arith),
                )
                (ap (λ j. main_op_loop fuel tokens j end stack false) (omega arith)),
      )

  module _ (op : TokenType) (a b : Tree) (i : ℕ) (left : Spells tokens i a)
      (mid : (tokens (i + size a)).type ≡ op) (binary : is_binary op ≡ true)
      (right : Spells tokens (i + size a + 1) b) (fits : i + size a + 1 + size b ≤ nr_tokens) where
    main_op_loop-split :
        (fuel : ℕ) (bad : Bool)
        → (bad' : Bool) × (main_op_loop
              (suc (suc (suc (suc fuel))))
              tokens
              i
              (i + size a + 1 + size b)
              []
              bad
            ≡ ok ((i + size a) ∷ [], bad'))
    unfolding pushes
    main_op_loop-split fuel bad =
        let end = i + size a + 1 + size b in
        let (bad₁, e₁) =
          main_op_loop-tree a (suc (suc (suc fuel))) i end [] bad left (omega arith)
            (omega arith) in
        let (k, prec) = binary-precedence op binary in
        let e₂ =
          main_op_loop-after (suc (suc fuel)) (i + size a) end [] bad₁ (some (suc k)) (omega arith)
            (omega arith) (ap get_op_precedence mid ∙ prec) in
        let (bad₂, e₃) =
          main_op_loop-tree b (suc fuel) (i + size a + 1) end ((i + size a) ∷ []) bad₁ right
            (omega arith) (omega arith) in
        (bad₂, e₁ ∙ e₂ ∙ e₃ ∙ main_op_loop-end fuel end ((i + size a) ∷ []) bad₂)

    -- The main operator of two expressions with an operator between is that operator.
    pub get_main_op-split :
        (bad : Bool)
        → (bad' : Bool) × (get_main_op tokens i (i + size a + 1 + size b) bad
            ≡ ok (i + size a, bad'))
    unfolding get_main_op
    get_main_op-split bad =
        let (bad', e) = main_op_loop-split 29 bad in
        (bad', ap (λ o. and_then o (λ (stack, flag). ok (top_or_zero stack, flag))) e)
