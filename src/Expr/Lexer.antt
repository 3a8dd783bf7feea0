-- ===== src/Expr/Lexer.antt =====
-- make_token ends, and stays within the token array.
use rv32i.Base.{
  ◌⊎◌, subst, ℕ, zero, suc, ◌+◌, ◌≤◌, ◌<◌, ◌≡◌, refl, arith, Bool, true, false, ltb, List, [], ◌∷◌,
  Option, none, some, length, take, drop, Outcome, ok, fail, host_overrun, and_then, Bool-cases,
  Option-cases, inl, inr, ap, ◌∙◌, sym,
}
use rv32i.Machine.{update}
use rv32i.Expr.Tokens.{
  TokenType, Rule, rules, nr_tokens, Regexec, Tokens, first_rule, is_notype, record_token,
  token_loop, make_token,
}

-- A match of a rule has at least one character: none of the rules matches the empty text.
abbrev pub AreNonempty : Regexec → List Rule → Type 0
AreNonempty regexec [] = Unit
AreNonempty regexec (r ∷ rs) =
    ((e : List ℕ) (len : ℕ) → regexec r.regex e ≡ some len → 0 < len) × AreNonempty regexec rs

length-drop : (n : ℕ) (e : List ℕ) (c : ℕ) → 0 < n → length (drop n (c ∷ e)) ≤ length e
length-drop zero e c h = absurd (omega arith)
length-drop (suc n) e c h = drop-le n e
  where
    drop-le : (n : ℕ) (e : List ℕ) → length (drop n e) ≤ length e
    drop-le zero e = omega arith
    drop-le (suc n) [] = omega arith
    drop-le (suc n) (c ∷ e) = omega (arith, drop-le n e)

-- The tokens recorded are within the array, and so are their characters.
pub record AreWithin (t : Tokens) : Type 0 where
  pub count : t.nr_token ≤ nr_tokens
  pub short : (i : ℕ) → i < t.nr_token → length (t.tokens i).str < 32

-- A result within the array, or a write outside of it.
abbrev Ends : Outcome (Bool × Tokens) → Type 0
Ends o = ((b : Bool) × (t : Tokens) × (o ≡ ok (b, t)) × AreWithin t) ⊎ (o ≡ fail host_overrun)

record_token-AreWithin :
    (type : TokenType) (str : List ℕ) (t : Tokens)
    → AreWithin t
    → ((t' : Tokens) × (record_token type str t ≡ ok t') × AreWithin t')
      ⊎ (record_token type str t ≡ fail host_overrun)
unfolding record_token
record_token-AreWithin type str t k = elim (Bool-cases (is_notype type)) [
  | inl blank ↦ inl (t, rw blank refl, k)
  | inr other ↦ elim (Bool-cases (ltb t.nr_token nr_tokens)) [
    | inr full ↦ inr (rw (other, full) refl)
    | inl room ↦ elim (Bool-cases (ltb (length str) 32)) [
      | inr long ↦ inr (rw (other, room, long) refl)
      | inl fits ↦ inl (
        record {
          tokens = update t.tokens t.nr_token (record { type = type; str = str });
          nr_token = t.nr_token + 1;
        },
        rw (other, room, fits) refl,
        record { count = ground arith; short = λ i lt. ground (arith, k.short i) },
      )
    ]
  ]
]

module _ (regexec : Regexec) where
  first_rule-AreNonempty :
      (rs : List Rule) (e : List ℕ) {type : TokenType} {len : ℕ}
      → AreNonempty regexec rs
      → first_rule regexec rs e ≡ some (type, len)
      → 0 < len
  unfolding first_rule
  first_rule-AreNonempty [] e h found = cc
  first_rule-AreNonempty (r ∷ rs) e {type} {len} h found =
      ground (arith, h.0 e len, first_rule-AreNonempty rs e {type = type} {len = len} h.1)

  -- The rest of the loop, behind a token of `len` characters.
  abbrev behind : ℕ → List ℕ → Tokens → TokenType × ℕ → Outcome (Bool × Tokens)
  behind fuel e t (type, len) =
      and_then (record_token type (take len e) t) λ t'. token_loop fuel regexec (drop len e) t'

  token_loop-eq :
      (fuel c : ℕ) (e : List ℕ) (t : Tokens) {o : Option (TokenType × ℕ)}
      → first_rule regexec rules (c ∷ e) ≡ o
      → token_loop (suc fuel) regexec (c ∷ e) t
        ≡ elim o [ none ↦ ok (false, t) | some r ↦ behind fuel (c ∷ e) t r ]
  unfolding token_loop
  token_loop-eq fuel c e t q = λ i. elim (q i) [
    | none ↦ ok (false, t)
    | some (type, len) ↦ behind fuel (c ∷ e) t (type, len)
  ]

  token_loop-Ends :
      (fuel : ℕ) (e : List ℕ) (t : Tokens)
      → AreNonempty regexec rules
      → AreWithin t
      → length e < fuel
      → Ends (token_loop fuel regexec e t)
  unfolding token_loop
  token_loop-Ends zero e t h k lt = absurd (omega arith)
  token_loop-Ends (suc fuel) [] t h k lt = inl (true, t, refl, k)
  token_loop-Ends (suc fuel) (c ∷ e) t h k lt =
      elim (Option-cases (first_rule regexec rules (c ∷ e))) [
        | inl unmatched ↦ inl (false, t, token_loop-eq fuel c e t unmatched, k)
        | inr ((type, len), found) ↦ elim (record_token-AreWithin type (take len (c ∷ e)) t k) [
          | inl (t', recorded, k') ↦
              let shorter : length (drop len (c ∷ e)) ≤ length e =
                length-drop len e c (first_rule-AreNonempty rules (c ∷ e) h found) in
              subst Ends
                (sym (
                  token_loop-eq fuel c e t found
                  ∙ ap (λ o. and_then o λ t'. token_loop fuel regexec (drop len (c ∷ e)) t')
                      recorded))
                (token_loop-Ends fuel (drop len (c ∷ e)) t' h k' (omega arith))
          | inr overrun ↦ inr (
              token_loop-eq fuel c e t found
              ∙ ap (λ o. and_then o λ t'. token_loop fuel regexec (drop len (c ∷ e)) t') overrun)
        ]
      ]

  -- Where every match of a rule has at least one character, make_token ends on every text, without
  -- running out of fuel: it returns with at most 32 tokens of at most 31 characters each, or a token
  -- does not fit into the array and is an access beyond it.
  pub make_token-AreWithin :
      (e : List ℕ) (t : Tokens)
      → AreNonempty regexec rules
      → ((b : Bool) × (t' : Tokens) × (make_token regexec e t ≡ ok (b, t')) × AreWithin t')
        ⊎ (make_token regexec e t ≡ fail host_overrun)
  unfolding make_token
  make_token-AreWithin e t h =
      token_loop-Ends (length e + 1) e (record t { nr_token = 0 }) h
        (record { count = omega arith; short = λ i lt. absurd (omega arith) }) (omega arith)
