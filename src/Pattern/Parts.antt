-- ===== src/Pattern/Parts.antt =====
-- Patterns whose digits and question marks follow the fields of an instruction word.
use rv32i.Base.{
  ℕ, zero, suc, ◌+◌, ◌-◌, ◌*◌, ◌/◌, ◌%◌, ◌^◌, ◌≡◌, refl, arith, Bool, true, false, ◌==◌, ◌&&◌, ◌||◌,
  if◌then◌else◌, ltb, List, [], ◌∷◌, ◌++◌, length, take, drop, ap, ap₂, ◌∙◌, sym, ◌≡⟨◌⟩◌, ◌∎, inl,
  inr, ◌⊎◌, ltb→lt, Option, none, some, ok, ==_iff,
}
use rv32i.Base.Bits.{mod-pow-suc}
use rv32i.Pattern.{Row, select, Pattern, pattern_decode, matches}
use rv32i.Pattern.Agrees.{digit_agrees, agrees, agrees-append, digits_onto}
use rv32i.Pattern.Decode.{AreChars, pattern_decode-agrees}

-- Every character is a question mark; every character is a digit; the number that digits stand for.
unfoldable pub is_any : List ℕ → Bool
is_any [] = true
is_any (c ∷ p) = c == b'?' && is_any p

unfoldable pub is_exact : List ℕ → Bool
is_exact [] = true
is_exact (c ∷ p) = (c == b'0' || c == b'1') && is_exact p

unfoldable pub value : List ℕ → ℕ
value [] = 0
value (c ∷ p) = c - b'0' + 2 * value p

-- The test of one field.
unfoldable pub part : List ℕ → ℕ → Bool
unfolding is_any value
part p y = if is_any p then true else y == value p

is_any-agrees : (p : List ℕ) (x : ℕ) → is_any p ≡ true → agrees p x ≡ true
unfolding is_any agrees digit_agrees
is_any-agrees [] x h = refl
is_any-agrees (c ∷ p) x h = ground (arith, is_any-agrees p (x / 2))

is_exact-agrees :
    (p : List ℕ) (x : ℕ) → is_exact p ≡ true → agrees p x ≡ (x % 2 ^ length p == value p)
unfolding is_exact agrees digit_agrees value
is_exact-agrees [] x h = ground arith
is_exact-agrees (c ∷ p) x h = ground (arith, is_exact-agrees p (x / 2), mod-pow-suc x (length p))

-- A segment of a pattern that is all digits or all question marks tests its field.
unfoldable pub is_part : List ℕ → Bool
unfolding is_any is_exact
is_part p = is_any p || is_exact p

pub part-agrees : (p : List ℕ) (x : ℕ) → is_part p ≡ true → agrees p x ≡ part p (x % 2 ^ length p)
unfolding is_part part
part-agrees p x h = ground (arith, is_any-agrees p x, is_exact-agrees p x)

-- A pattern cut into segments of the given widths, the lowest first: each is all digits or all
-- question marks.
unfoldable pub is_parts : List ℕ → List ℕ → Bool
unfolding is_part
is_parts [] p = length p == 0
is_parts (w ∷ ws) p = (length (take w p) == w) && (is_part (take w p) && is_parts ws (drop w p))

unfoldable pub parts : List ℕ → List ℕ → ℕ → Bool
unfolding part
parts [] p x = true
parts (w ∷ ws) p x = part (take w p) (x % 2 ^ w) && parts ws (drop w p) (x / 2 ^ w)

take-append-drop {ℓ} : {A : Type ℓ} (n : ℕ) (xs : List A) → take n xs ++ drop n xs ≡ xs
take-append-drop zero xs = refl
take-append-drop (suc n) [] = refl
take-append-drop (suc n) (x ∷ xs) = ap (λ l. x ∷ l) (take-append-drop n xs)

pub and-true : (a b : Bool) → (a && b) ≡ true → (a ≡ true) × (b ≡ true)
and-true a b h = ground arith

parts-agrees : (ws p : List ℕ) (x : ℕ) → is_parts ws p ≡ true → agrees p x ≡ parts ws p x
unfolding is_parts parts
parts-agrees [] [] x h = unfold agrees in refl
parts-agrees [] (c ∷ p) x h = ground arith
parts-agrees (w ∷ ws) p x h =
    let (a, b) = and-true (length (take w p) == w) _ h in
    let (c, d) = and-true (is_part (take w p)) _ b in
    let width : length (take w p) ≡ w = (==_iff _ w).0 a in
    agrees p x
    ≡⟨ ap (λ q. agrees q x) (sym (take-append-drop w p)) ⟩ agrees (take w p ++ drop w p) x
    ≡⟨ agrees-append (take w p) (drop w p) x ⟩
      (agrees (take w p) x && agrees (drop w p) (x / 2 ^ length (take w p)))
    ≡⟨ ap (λ n. agrees (take w p) x && agrees (drop w p) (x / 2 ^ n)) width ⟩
      (agrees (take w p) x && agrees (drop w p) (x / 2 ^ w))
    ≡⟨ ap₂ ◌&&◌ (part-agrees (take w p) x c ∙ ap (λ n. part (take w p) (x % 2 ^ n)) width)
        (parts-agrees ws (drop w p) (x / 2 ^ w) d) ⟩
      parts (w ∷ ws) p x ∎

-- What `parts-agrees` and `pattern_decode-agrees` ask of a row, as a test.
is_chars : List ℕ → Bool
is_chars [] = true
is_chars (c ∷ str) = (c == b' ' || (c == b'0' || (c == b'1' || c == b'?'))) && is_chars str

or-cases : (a b : Bool) → (a || b) ≡ true → (a ≡ true) ⊎ (b ≡ true)
or-cases true b h = inl refl
or-cases false b h = inr h

is_char-cases :
    (c : ℕ)
    → (c == b' ' || (c == b'0' || (c == b'1' || c == b'?'))) ≡ true
    → (c ≡ b' ') ⊎ (c ≡ b'0') ⊎ (c ≡ b'1') ⊎ (c ≡ b'?')
is_char-cases c h = elim (or-cases (c == b' ') _ h) [
  | inl e ↦ inl ((==_iff c b' ').0 e)
  | inr r ↦ inr (elim (or-cases (c == b'0') _ r) [
    | inl e ↦ inl ((==_iff c b'0').0 e)
    | inr t ↦ inr (elim (or-cases (c == b'1') _ t) [
      | inl e ↦ inl ((==_iff c b'1').0 e)
      | inr e ↦ inr ((==_iff c b'?').0 e)
    ])
  ])
]

is_chars-AreChars : (str : List ℕ) → is_chars str ≡ true → AreChars str
unfolding is_chars
is_chars-AreChars [] h = tt
is_chars-AreChars (c ∷ str) h =
    let (a, b) = and-true (c == b' ' || (c == b'0' || (c == b'1' || c == b'?'))) _ h in
    (is_char-cases c a, is_chars-AreChars str b)

-- What is asked of a pattern string, as a test: its characters, its length, and its segments.
unfoldable pub follows : List ℕ → List ℕ → Bool
unfolding is_chars is_parts digits_onto
follows ws str = is_chars str && (ltb (length str) 64 && is_parts ws (digits_onto str []))

-- Such a pattern tests a word field by field.
pub follows-parts :
    (ws str : List ℕ) (x : ℕ)
    → follows ws str ≡ true
    → (p : Pattern) × (pattern_decode str ≡ ok p) × (matches p x ≡ parts ws (digits_onto str []) x)
unfolding follows
follows-parts ws str x h =
    let (a, b) = and-true (is_chars str) _ h in
    let (c, d) = and-true (ltb (length str) 64) _ b in
    let (p, decoded, same) = pattern_decode-agrees str (is_chars-AreChars str a) (ltb→lt _ _ c) in
    (p, decoded, same x ∙ parts-agrees ws (digits_onto str []) x d)

if-ok {ℓ} : {A : Type ℓ} (b : Bool) (x y : A) → (if b then ok x else ok y) ≡ ok (if b then x else y)
if-ok true x y = refl
if-ok false x y = refl

module _ {T O : Type 0} where
  -- The search of a table by the fields.
  unfoldable pub by_parts : List ℕ → List (Row T O) → ℕ → Option (Row T O)
  unfolding parts digits_onto
  by_parts ws [] x = none
  by_parts ws (row ∷ rows) x =
      if parts ws (digits_onto row.pattern []) x then some row else by_parts ws rows x

  unfoldable pub all_follow : List ℕ → List (Row T O) → Bool
  unfolding follows
  all_follow ws [] = true
  all_follow ws (row ∷ rows) = follows ws row.pattern && all_follow ws rows

  -- A table whose patterns follow the fields is searched by the fields.
  pub select-by_parts :
      (ws : List ℕ) (rows : List (Row T O)) (x : ℕ)
      → all_follow ws rows ≡ true
      → select rows x ≡ ok (by_parts ws rows x)
  unfolding select by_parts all_follow
  select-by_parts ws [] x h = refl
  select-by_parts ws (row ∷ rows) x h =
      let (a, b) = and-true (follows ws row.pattern) (all_follow ws rows) h in
      let (p, decoded, test) = follows-parts ws row.pattern x a in
      rw (decoded, test, select-by_parts ws rows x b)
        (if-ok (parts ws (digits_onto row.pattern []) x) (some row) (by_parts ws rows x))
