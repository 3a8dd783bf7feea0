-- ===== src/Pattern/Hex/Expand.antt =====
-- pattern_decode_hex against pattern_decode on the same digits in binary.
use rv32i.Base.{
  ℕ, zero, suc, ◌*◌, ◌≤◌, ◌<◌, ◌≡◌, refl, arith, List, [], ◌∷◌, length, ok, then_ok, ap, sym, ◌∙◌,
  ◌⊎◌, inl, inr,
}
use rv32i.Pattern.Hex.{hex_value, decode_hex_char, decode_hex_chars, pattern_decode_hex}
use rv32i.Pattern.{Pattern, decode_char, finish, decode_chars, pattern_decode}
use rv32i.Pattern.Hex.Digits.{
  binary, expand, decode_chars-rounds, IsHexDigit, IsRead, digit-IsRead, decode_hex_char-digit,
  decode_hex_char-any, decode_chars-binary, decode_chars-any,
}

decode_hex_char-blank : (p : Pattern) → decode_hex_char b' ' p ≡ ok p
unfolding decode_hex_char
decode_hex_char-blank p = refl

decode_char-blank : (p : Pattern) → decode_char b' ' p ≡ ok p
unfolding decode_char
decode_char-blank p = refl

decode_chars-end : (m : ℕ) (p : Pattern) → decode_chars (suc m) [] p ≡ ok (finish p)
unfolding decode_chars
decode_chars-end m p = refl

-- The characters of a pattern in hexadecimal.
abbrev pub AreHexChars : List ℕ → Type 0
AreHexChars [] = Unit
AreHexChars (c ∷ str) = ((c ≡ b' ') ⊎ (c ≡ b'?') ⊎ IsHexDigit c) × AreHexChars str

expand_nil : expand [] ≡ []
unfolding expand
expand_nil = refl

expand-blank : (c : ℕ) (str : List ℕ) → c ≡ b' ' → expand (c ∷ str) ≡ b' ' ∷ expand str
unfolding expand
expand-blank c str e = rw e

expand-any :
    (c : ℕ) (str : List ℕ) → c ≡ b'?' → expand (c ∷ str) ≡ b'?' ∷ b'?' ∷ b'?' ∷ b'?' ∷ expand str
unfolding expand
expand-any c str e = rw e

expand-digit :
    (c : ℕ) (str : List ℕ) → IsRead c → expand (c ∷ str) ≡ binary (hex_value c) (expand str)
unfolding expand
expand-digit c str r = rw (r.not_blank, r.not_any)

decode_chars-same :
    (n m : ℕ) (s t : List ℕ) (p : Pattern)
    → t ≡ s
    → length s < n
    → length t < m
    → decode_chars n s p ≡ decode_chars m t p
decode_chars-same n m s t p e l r =
    decode_chars-rounds n m s p l (omega (arith, ap (length {A = ℕ}) e))
    ∙ ap (λ x. decode_chars m x p) (sym e)

decode_hex_chars-expand :
    (n m : ℕ) (str : List ℕ) (p : Pattern)
    → AreHexChars str
    → length str < n
    → length (expand str) < m
    → decode_hex_chars n str p ≡ decode_chars m (expand str) p
unfolding decode_hex_chars decode_chars
decode_hex_chars-expand zero m str p cs l r = absurd (omega arith)
decode_hex_chars-expand (suc n) zero str p cs l r = absurd (omega arith)
decode_hex_chars-expand (suc n) (suc m) [] p cs l r =
    sym (ap (λ s. decode_chars (suc m) s p) expand_nil ∙ decode_chars-end m p)
decode_hex_chars-expand (suc n) (suc m) (c ∷ str) p (inl e, cs) l r =
    then_ok _ (ap (λ c. decode_hex_char c p) e ∙ decode_hex_char-blank p)
    ∙ decode_hex_chars-expand n (suc (length (expand str))) str p cs (omega arith) (omega arith)
    ∙ sym (then_ok (decode_chars (suc (length (expand str))) (expand str)) (decode_char-blank p))
    ∙ decode_chars-same (suc (suc (length (expand str)))) (suc m) (b' ' ∷ expand str)
        (expand (c ∷ str)) p (expand-blank c str e) (omega arith) r
decode_hex_chars-expand (suc n) (suc m) (c ∷ str) p (inr (inl e), cs) l r =
    then_ok _ (ap (λ c. decode_hex_char c p) e ∙ decode_hex_char-any p)
    ∙ decode_hex_chars-expand n (suc (length (expand str))) str _ cs (omega arith) (omega arith)
    ∙ sym (decode_chars-any (suc (length (expand str))) (expand str) p)
    ∙ decode_chars-same (suc (suc (suc (suc (suc (length (expand str))))))) (suc m) _
        (expand (c ∷ str)) p (expand-any c str e) (omega arith) r
decode_hex_chars-expand (suc n) (suc m) (c ∷ str) p (inr (inr d), cs) l r =
    let k = digit-IsRead c d in
    then_ok _ (decode_hex_char-digit c p k)
    ∙ decode_hex_chars-expand n (suc (length (expand str))) str _ cs (omega arith) (omega arith)
    ∙ sym (decode_chars-binary (suc (length (expand str))) (hex_value c) (expand str) p k.value)
    ∙ decode_chars-same (suc (suc (suc (suc (suc (length (expand str))))))) (suc m) _
        (expand (c ∷ str)) p (expand-digit c str k) (omega arith) r

length-expand : (str : List ℕ) → length (expand str) ≤ 4 * length str
unfolding expand
length-expand [] = omega arith
length-expand (c ∷ str) = ground (arith, length-expand str)

-- A pattern in hexadecimal of at most 15 characters is decoded as the pattern in binary that has
-- four characters for each digit and each question mark of it: the same key, mask and shift.
pub pattern_decode_hex-expand :
    (str : List ℕ)
    → AreHexChars str
    → length str < 16
    → pattern_decode_hex str ≡ pattern_decode (expand str)
unfolding pattern_decode_hex pattern_decode
pattern_decode_hex-expand str cs lt =
    decode_hex_chars-expand 16 64 str _ cs lt (omega (arith, length-expand str))
