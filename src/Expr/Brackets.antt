-- ===== src/Expr/Brackets.antt =====
-- check_parentheses of ysyx-workbench/nemu/src/monitor/sdb/expr.c on the tokens of a bracketed
-- expression.
use rv32i.Base.{
  ℕ, zero, suc, ◌+◌, ◌-◌, ◌≤◌, ◌<◌, ◌≡◌, refl, arith, Bool, true, false, ◌==◌, ◌&&◌, not,
  if◌then◌else◌, leb, none, some, Outcome, ok, ap, ◌∙◌, ◌⊎◌, inl, inr, lt→ltb,
}
use rv32i.Expr.Tokens.{TokenType, lparen, rparen, Token, nr_tokens}
use rv32i.Expr.Eval.{Array, token_at, depth_step, paren_loop, check_parentheses}
use rv32i.Expr.Tree.{Tree, leaf, node, size, is_operand, is_binary, Spells}

-- A token that is no bracket.
abbrev pub is_plain : TokenType → Bool
is_plain lparen = false
is_plain rparen = false
is_plain _ = true

-- Back at depth 0 before the end, the range is not one bracket.
abbrev pub still_full : ℕ → ℕ → Bool → Bool
still_full depth rest full = if depth == 0 && not (rest == 0) then false else full

depth_step-plain : (t : TokenType) (s : ℕ) → is_plain t ≡ true → depth_step t s ≡ some s
depth_step-plain lparen s h = cc
depth_step-plain rparen s h = cc
depth_step-plain _ s h = refl

plus_one : (s : ℕ) → s + 1 ≡ suc s
plus_one s = omega arith

pub size-pos : (t : Tree) → 0 < size t
size-pos (leaf t) = omega arith
size-pos (node op a b) = omega arith

apart : (s : ℕ) → (s + 1 == 0) ≡ false
apart s = ground arith

none_left : (k : ℕ) → suc k ≤ 1 → k ≡ 0
none_left k le = omega arith

pub le_or_lt : (k n : ℕ) → (k ≤ n) ⊎ (n < k)
le_or_lt k n = ground arith

pub lt→leb : (a b : ℕ) → a < b → leb b a ≡ false
lt→leb a b h = ground arith

length_of : (i j : ℕ) → i ≤ j → j + 1 - i ≡ suc (j - i)
length_of i j le = omega arith

deep : (s r : ℕ) (full : Bool) → still_full (s + 1) r full ≡ full
deep s r full = ground arith

is_operand-is_plain : (t : TokenType) → is_operand t ≡ true → is_plain t ≡ true
is_operand-is_plain lparen h = cc
is_operand-is_plain rparen h = cc
is_operand-is_plain _ h = refl

is_binary-is_plain : (t : TokenType) → is_binary t ≡ true → is_plain t ≡ true
is_binary-is_plain lparen h = cc
is_binary-is_plain rparen h = cc
is_binary-is_plain _ h = refl

pub operand-is_plain : (u t : Token) → u ≡ t → is_operand t.type ≡ true → is_plain u.type ≡ true
operand-is_plain u t same h = ap (λ v. is_plain v.type) same ∙ is_operand-is_plain t.type h

pub binary-is_plain : (u op : TokenType) → u ≡ op → is_binary op ≡ true → is_plain u ≡ true
binary-is_plain u op same h = ap is_plain same ∙ is_binary-is_plain op h

module _ (tokens : Array) where
  step_to :
      (r i s d : ℕ) (full : Bool)
      → i < nr_tokens
      → depth_step (tokens i).type s ≡ some d
      → paren_loop (suc r) tokens i s full ≡ paren_loop r tokens (i + 1) d (still_full d r full)
  unfolding paren_loop token_at
  step_to r i s d full small e = rw (lt→ltb i nr_tokens small) (
      ap
        (λ o. elim o as (λ _. Outcome (Bool × Bool)) [
          | none ↦ ok (false, true)
          | some depth ↦ paren_loop r tokens (i + 1) depth (still_full depth r full)
        ])
        e)

  step-open :
      (r i s : ℕ) (full : Bool)
      → i < nr_tokens
      → (tokens i).type ≡ lparen
      → paren_loop (suc r) tokens i s full ≡ paren_loop r tokens (i + 1) (s + 1) full
  step-open r i s full small e =
      step_to r i s (s + 1) full small (rw e)
      ∙ ap (paren_loop r tokens (i + 1) (s + 1)) (deep s r full)

  step-close :
      (r i s : ℕ) (full : Bool)
      → i < nr_tokens
      → (tokens i).type ≡ rparen
      → paren_loop (suc r) tokens i (s + 1) full
        ≡ paren_loop r tokens (i + 1) s (still_full s r full)
  step-close r i s full small e =
      step_to r i (s + 1) s full small
        (ap (λ t. depth_step t (s + 1)) e ∙ ap (depth_step rparen) (plus_one s))

  pub step-plain :
      (r i s : ℕ) (full : Bool)
      → i < nr_tokens
      → is_plain (tokens i).type ≡ true
      → paren_loop (suc r) tokens i s full ≡ paren_loop r tokens (i + 1) s (still_full s r full)
  step-plain r i s full small e = step_to r i s s full small (depth_step-plain (tokens i).type s e)

  -- Over a bracketed expression the depth comes back to what it was.
  pub paren_loop-tree :
      (t : Tree) (n i s r : ℕ) (full : Bool)
      → n ≡ size t + r
      → Spells tokens i t
      → i + size t ≤ nr_tokens
      → paren_loop n tokens i s full ≡ paren_loop r tokens (i + size t) s (still_full s r full)
  paren_loop-tree t zero i s r full e sp fits = absurd (omega (arith, size-pos t))
  paren_loop-tree (leaf t) (suc n) i s r full e (same, operand) fits =
      step-plain n i s full (omega arith) (operand-is_plain (tokens i) t same operand)
      ∙ ap (λ k. paren_loop k tokens (i + 1) s (still_full s k full)) (omega arith)
  paren_loop-tree (node op a b) (suc n) i s r full e (opening, left, mid, binary, right, closing)
        fits =
      let r₁ = size b + suc r in
      step-open n i s full (omega arith) opening
      ∙ paren_loop-tree a n (i + 1) (s + 1) (suc r₁) full (omega arith) left (omega arith)
      ∙ ap (paren_loop (suc r₁) tokens (i + 1 + size a) (s + 1)) (deep s (suc r₁) full)
      ∙ step-plain r₁ (i + 1 + size a) (s + 1) full (omega arith) (binary-is_plain _ op mid binary)
      ∙ ap (paren_loop r₁ tokens (i + 1 + size a + 1) (s + 1)) (deep s r₁ full)
      ∙ paren_loop-tree b r₁ (i + 1 + size a + 1) (s + 1) (suc r) full refl right (omega arith)
      ∙ ap (paren_loop (suc r) tokens (i + 1 + size a + 1 + size b) (s + 1)) (deep s (suc r) full)
      ∙ step-close r (i + 1 + size a + 1 + size b) s full (omega arith) closing
      ∙ ap (λ j. paren_loop r tokens j s (still_full s r full)) (omega arith)

  unclosed : (i s : ℕ) (full : Bool) → paren_loop 0 tokens i (s + 1) full ≡ ok (false, true)
  unfolding paren_loop
  unclosed i s full = rw (apart s)

  -- Ranges of up to `n` tokens from `i` on leave a bracket that is open before them open.
  StayOpen : ℕ → ℕ → Type 0
  StayOpen i n =
      (k s : ℕ) (full : Bool) → k ≤ n → paren_loop k tokens i (s + 1) full ≡ ok (false, true)

  module _ (op : TokenType) (a b : Tree) (i : ℕ) (left : Spells tokens i a)
      (mid : (tokens (i + size a)).type ≡ op) (binary : is_binary op ≡ true)
      (fits : i + size a + 1 + size b ≤ nr_tokens) where
    -- Behind an opening bracket, up to the closing one.
    inner-StayOpen :
        StayOpen i (size a)
        → StayOpen (i + size a + 1) (size b)
        → StayOpen i (size a + (1 + size b))
    unfolding StayOpen
    inner-StayOpen first second k s full le = elim (le_or_lt k (size a)) [
      | inl short ↦ first k s full short
      | inr long ↦
          let k₂ = k - size a - 1 in
          paren_loop-tree a k i (s + 1) (suc k₂) full (omega arith) left (omega arith)
          ∙ ap (paren_loop (suc k₂) tokens (i + size a) (s + 1)) (deep s (suc k₂) full)
          ∙ step-plain k₂ (i + size a) (s + 1) full (omega arith) (binary-is_plain _ op mid binary)
          ∙ ap (paren_loop k₂ tokens (i + size a + 1) (s + 1)) (deep s k₂ full)
          ∙ second k₂ s full (omega arith)
    ]

  -- Ranges that end within a bracketed expression.
  tree-StayOpen :
      (t : Tree) (i : ℕ) → Spells tokens i t → i + size t ≤ nr_tokens → StayOpen i (size t)
  unfolding StayOpen
  tree-StayOpen (leaf t) i (same, operand) fits zero s full le = unclosed i s full
  tree-StayOpen (leaf t) i (same, operand) fits (suc k) s full le =
      step-plain k i (s + 1) full (omega arith) (operand-is_plain (tokens i) t same operand)
      ∙ ap (λ j. paren_loop j tokens (i + 1) (s + 1) (still_full (s + 1) k full)) (none_left k le)
      ∙ unclosed (i + 1) s (still_full (s + 1) k full)
  tree-StayOpen (node op a b) i (opening, left, mid, binary, right, closing) fits zero s full le =
      unclosed i s full
  tree-StayOpen (node op a b) i (opening, left, mid, binary, right, closing) fits (suc k) s full
        le =
      elim (le_or_lt k (size a + (1 + size b))) [
        | inl short ↦
            step-open k i (s + 1) full (omega arith) opening
            ∙ inner-StayOpen op a b (i + 1) left mid binary (omega arith)
                (tree-StayOpen a (i + 1) left (omega arith))
                (tree-StayOpen b (i + 1 + size a + 1) right (omega arith)) k (s + 1) full short
        | inr long ↦
            paren_loop-tree (node op a b) (suc k) i (s + 1) 0 full (omega arith)
              (opening, left, mid, binary, right, closing) fits
            ∙ unclosed _ s _
      ]

  -- check_parentheses at an expression in brackets: the whole is one bracket, and what ends
  -- earlier is bad.
  module _ (op : TokenType) (a b : Tree) (i : ℕ) (sp : Spells tokens i (node op a b))
      (fits : i + size (node op a b) ≤ nr_tokens) where
    pub check_parentheses-whole :
        (bad : Bool) → check_parentheses tokens i (i + size (node op a b)) bad ≡ ok (true, false)
    unfolding check_parentheses
    check_parentheses-whole bad = rw (lt→leb i (i + size (node op a b)) (omega arith)) (
        paren_loop-tree (node op a b) (i + size (node op a b) - i) i 0 0 true (omega arith) sp fits
        ∙ unfold paren_loop in refl)

    pub check_parentheses-part :
        (j : ℕ) (bad : Bool)
        → i ≤ j
        → suc j < i + size (node op a b)
        → check_parentheses tokens i (j + 1) bad ≡ ok (false, true)
    unfolding check_parentheses StayOpen
    check_parentheses-part j bad le lt =
        let (opening, left, mid, binary, right, closing) = sp in
        rw (lt→leb i (j + 1) (omega arith)) (
          ap (λ n. paren_loop n tokens i 0 true) (length_of i j le)
          ∙ step-open (j - i) i 0 true (omega arith) opening
          ∙ inner-StayOpen op a b (i + 1) left mid binary (omega arith)
              (tree-StayOpen a (i + 1) left (omega arith))
              (tree-StayOpen b (i + 1 + size a + 1) right (omega arith)) (j - i) 0 true
              (omega arith))
