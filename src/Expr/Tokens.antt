-- ===== src/Expr/Tokens.antt =====
-- make_token and tokenise of ysyx-workbench/nemu/src/monitor/sdb/expr.c. POSIX regexec is a
-- parameter: for a regular expression and a text, the length of the match that begins the text.
use rv32i.Base.{
  ℕ, zero, suc, ◌+◌, ◌-◌, Bool, true, false, if◌then◌else◌, ltb, List, [], ◌∷◌, Option, none, some,
  codes, length, take, drop, Outcome, ok, fail, host_overrun, out_of_fuel, and_then,
}
use rv32i.Machine.{update}

-- A character stands for its own token type in the source.
pub data TokenType : Type 0 where
  notype plus minus times divide lparen rparen eq neq and reg hex dec negate deref : TokenType

pub record Token : Type 0 where
  pub type : TokenType
  pub str : List ℕ

pub record Rule : Type 0 where
  pub regex : List ℕ
  pub type : TokenType

abbrev rule : List ℕ → TokenType → Rule
rule r t = record { regex = r; type = t }

unfoldable pub rules : List Rule
rules =
    rule (codes " +") notype
    ∷ rule (codes "\\+") plus
    ∷ rule (codes "-") minus
    ∷ rule (codes "\\*") times
    ∷ rule (codes "/") divide
    ∷ rule (codes "\\(") lparen
    ∷ rule (codes "\\)") rparen
    ∷ rule (codes "==") eq
    ∷ rule (codes "!=") neq
    ∷ rule (codes "&&") and
    ∷ rule (codes "\\$[a-zA-Z0-9]+") reg
    ∷ rule (codes "0[xX][0-9a-fA-F]+") hex
    ∷ rule (codes "[0-9]+") dec
    ∷ []

abbrev pub nr_tokens : ℕ
nr_tokens = 32

abbrev pub Regexec : Type 0
Regexec = List ℕ → List ℕ → Option ℕ

-- tokens and nr_token (length_token has the same value throughout).
pub record Tokens : Type 0 where
  pub tokens : ℕ → Token
  pub nr_token : ℕ

-- The first rule that matches at the position, and the length of the match.
unfoldable pub first_rule : Regexec → List Rule → List ℕ → Option (TokenType × ℕ)
first_rule regexec [] e = none
first_rule regexec (r ∷ rs) e = elim (regexec r.regex e) [
  | none ↦ first_rule regexec rs e
  | some len ↦ some (r.type, len)
]

abbrev pub is_notype : TokenType → Bool
is_notype notype = true
is_notype _ = false

-- The switch: a token is recorded, unless it is blank. A token past the end of the array, and one
-- that leaves no room for the final NUL of its 32 characters, is outside the array.
unfoldable pub record_token : TokenType → List ℕ → Tokens → Outcome Tokens
record_token type str t =
    if is_notype type
    then ok t
    else (if ltb t.nr_token nr_tokens
        then (if ltb (length str) 32
            then ok (record {
              tokens = update t.tokens t.nr_token (record { type = type; str = str });
              nr_token = t.nr_token + 1;
            })
            else fail host_overrun)
        else fail host_overrun)

-- The loop over the text; `false` where no rule matches.
unfoldable pub token_loop : ℕ → Regexec → List ℕ → Tokens → Outcome (Bool × Tokens)
unfolding first_rule record_token
token_loop zero regexec e t = fail out_of_fuel
token_loop (suc fuel) regexec [] t = ok (true, t)
token_loop (suc fuel) regexec (c ∷ e) t = elim (first_rule regexec rules (c ∷ e)) [
  | none ↦ ok (false, t)
  | some (type, len) ↦
      and_then (record_token type (take len (c ∷ e)) t)
        λ t'. token_loop fuel regexec (drop len (c ∷ e)) t'
]

unfoldable pub make_token : Regexec → List ℕ → Tokens → Outcome (Bool × Tokens)
unfolding token_loop
make_token regexec e t = token_loop (length e + 1) regexec e (record t { nr_token = 0 })

abbrev pub set_type : (ℕ → Token) → ℕ → TokenType → ℕ → Token
set_type tokens i type = update tokens i (record (tokens i) { type = type })

-- After an operator of this list, or an opening bracket, - and * have one operand.
unfoldable pub opens_operand : TokenType → Bool
opens_operand plus = true
opens_operand minus = true
opens_operand times = true
opens_operand divide = true
opens_operand lparen = true
opens_operand _ = false

-- The type of - and * with one operand; any other type stays.
unfoldable pub unary_type : TokenType → TokenType
unary_type minus = negate
unary_type times = deref
unary_type t = t

unfoldable pub tokenise_loop : ℕ → ℕ → (ℕ → Token) → ℕ → Token
unfolding opens_operand unary_type
tokenise_loop zero i tokens = tokens
tokenise_loop (suc rounds) i tokens = tokenise_loop rounds (i + 1) (
    if opens_operand (tokens (i - 1)).type
    then set_type tokens i (unary_type (tokens i).type)
    else tokens)

unfoldable pub tokenise : Tokens → Tokens
unfolding tokenise_loop unary_type
tokenise t = record t {
  tokens = tokenise_loop (t.nr_token - 1) 1 (set_type t.tokens 0 (unary_type (t.tokens 0).type));
}
