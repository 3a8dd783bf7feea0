-- ===== src/Pattern/Decode.antt =====
-- pattern_decode against the meaning of a pattern.
use native.Mathlib.Nat.{
  pow-suc, pow-le-pow_right, mul-div_cancel, one-le-pow, eq_of_mul-eq-mul_right, add-zero,
}
use native.Mathlib.Numerals.{add-one}
use rv32i.Base.{
  ℕ, zero, suc, ◌+◌, ◌*◌, ◌/◌, ◌%◌, ◌^◌, ◌≤◌, ◌<◌, ◌≡◌, refl, arith, false, ◌==◌, List, [], ◌∷◌,
  length, ap, ap₂, ◌∙◌, sym, ok, fail, assertion, bit_and, bit_or, Bool-cases, inl, inr, ◌⊎◌,
  Bool-ext, ==_iff,
}
use rv32i.Base.Bits.{bit_and_step, bit_and-shift, bit_or-disjoint, mul-pow-suc, bit_and-zero}
use rv32i.Word.{u64}
use rv32i.Pattern.{
  Pattern, is_pattern_char, read_digit, decode_char, finish, decode_chars, pattern_decode, matches,
}
use rv32i.Pattern.Agrees.{digit_agrees, agrees, digits_onto}

-- What has been read when the characters `p` are behind, `n` of them looked at.
record IsRead (n : ℕ) (p : List ℕ) (q : Pattern) : Type 0 where
  key_lt : q.key < 2 ^ n
  mask_lt : q.mask < 2 ^ n
  key_shift : q.key ≡ q.key / 2 ^ q.shift * 2 ^ q.shift
  mask_shift : q.mask ≡ q.mask / 2 ^ q.shift * 2 ^ q.shift
  agree : (x : ℕ) → (bit_and x q.mask == q.key) ≡ agrees p x

-- k << 1 | b, for a digit b.
push_digit : (k n b : ℕ) → n < 64 → k < 2 ^ n → b < 2 → bit_or (k * 2 % u64) b ≡ k * 2 + b
push_digit k n b small h hb = ap (λ j. bit_or j b) fits ∙ bit_or-disjoint 1 k b hb
  where
    fits : k * 2 % u64 ≡ k * 2
    fits =
        omega
          (arith, pow-le-pow_right {n = 2} (omega arith) {i = suc n} {j = 64} small, pow-suc 2 n)

==-mul : (a k p : ℕ) → 0 < p → (a == k) ≡ (a * p == k * p)
==-mul a k p h =
    Bool-ext (a == k) (a * p == k * p) (λ e. (==_iff _ _).1 (ap (λ n. n * p) ((==_iff a k).0 e)))
      (λ e. (==_iff _ _).1 (eq_of_mul-eq-mul_right p h a k ((==_iff (a * p) (k * p)).0 e)))

shift_step : (a s : ℕ) → a ≡ a / 2 ^ s * 2 ^ s → a * 2 ≡ a * 2 / 2 ^ (s + 1) * 2 ^ (s + 1)
shift_step a s e = rw add-one (whole ∙ ap (λ t. t * 2 ^ suc s) (sym part))
  where
    whole : a * 2 ≡ a / 2 ^ s * 2 ^ suc s
    whole = omega (arith, e, mul-pow-suc (a / 2 ^ s) s)

    part : a * 2 / 2 ^ suc s ≡ a / 2 ^ s
    part =
        ap (λ k. k / 2 ^ suc s) whole
        ∙ mul-div_cancel (a / 2 ^ s) (one-le-pow (suc s) 2 (omega arith))

module _ (n : ℕ) (p : List ℕ) (q : Pattern) (r : IsRead n p q) where
  IsRead-finish : (x : ℕ) → matches (finish q) x ≡ agrees p x
  unfolding matches finish
  IsRead-finish x =
      ==-mul (bit_and (x / 2 ^ q.shift) (q.mask / 2 ^ q.shift)) (q.key / 2 ^ q.shift) (2 ^ q.shift)
        (one-le-pow q.shift 2 (omega arith))
      ∙ ap₂ ◌==◌
          (sym (bit_and-shift q.shift x (q.mask / 2 ^ q.shift)) ∙ ap (bit_and x) (sym r.mask_shift))
          (sym r.key_shift)
      ∙ r.agree x

  -- A digit 0 or 1 is read.
  IsRead-digit :
      (d : ℕ)
      → d < 2
      → IsRead
          (suc n)
          ((b'0' + d) ∷ p)
          (record { key = q.key * 2 + d; mask = q.mask * 2 + 1; shift = 0 })
  unfolding agrees digit_agrees
  IsRead-digit d hd = record {
    key_lt = omega (arith, r.key_lt, pow-suc 2 n);
    mask_lt = omega (arith, r.mask_lt, pow-suc 2 n);
    key_shift = omega arith;
    mask_shift = omega arith;
    agree = λ x.
        ground (arith, bit_and_step x (q.mask * 2 + 1), ap (bit_and (x / 2)) half, r.agree (x / 2));
  }
    where
      half : (q.mask * 2 + 1) / 2 ≡ q.mask
      half = omega arith

  -- A question mark is read.
  IsRead-any :
      IsRead (suc n) (b'?' ∷ p) (record { key = q.key * 2; mask = q.mask * 2; shift = q.shift + 1 })
  unfolding agrees digit_agrees
  IsRead-any = record {
    key_lt = omega (arith, r.key_lt, pow-suc 2 n);
    mask_lt = omega (arith, r.mask_lt, pow-suc 2 n);
    key_shift = shift_step q.key q.shift r.key_shift;
    mask_shift = shift_step q.mask q.shift r.mask_shift;
    agree = λ x.
        ground (arith, bit_and_step x (q.mask * 2), ap (bit_and (x / 2)) half, r.agree (x / 2));
  }
    where
      half : q.mask * 2 / 2 ≡ q.mask
      half = omega arith

-- The characters of a pattern: the three that stand for a digit, and blanks.
abbrev pub AreChars : List ℕ → Type 0
AreChars [] = Unit
AreChars (c ∷ str) = ((c ≡ b' ') ⊎ (c ≡ b'0') ⊎ (c ≡ b'1') ⊎ (c ≡ b'?')) × AreChars str

abbrev with_digits : ℕ → ℕ → ℕ → Pattern
with_digits s k m = record { key = k; mask = m; shift = s }

-- One character that stands for a digit.
IsRead-char :
    (n : ℕ) (p : List ℕ) (q : Pattern) (c : ℕ)
    → n < 64
    → IsRead n p q
    → (c ≡ b'0') ⊎ (c ≡ b'1') ⊎ (c ≡ b'?')
    → (q' : Pattern) × (decode_char c q ≡ ok q') × IsRead (suc n) (c ∷ p) q' × ((c == b' ') ≡ false)
unfolding decode_char
IsRead-char n p q c small r (inl e) = rw e (
  with_digits 0 (q.key * 2 + 0) (q.mask * 2 + 1),
  ap₂ (λ k m. ok (with_digits 0 k m)) (push_digit q.key n 0 small r.key_lt (omega arith))
      (push_digit q.mask n 1 small r.mask_lt (omega arith)),
  IsRead-digit n p q r 0 (omega arith),
  refl,
)
IsRead-char n p q c small r (inr (inl e)) = rw e (
  with_digits 0 (q.key * 2 + 1) (q.mask * 2 + 1),
  ap₂ (λ k m. ok (with_digits 0 k m)) (push_digit q.key n 1 small r.key_lt (omega arith))
      (push_digit q.mask n 1 small r.mask_lt (omega arith)),
  IsRead-digit n p q r 1 (omega arith),
  refl,
)
IsRead-char n p q c small r (inr (inr e)) = rw e (
  with_digits (q.shift + 1) (q.key * 2) (q.mask * 2),
  ap₂ (λ k m. ok (with_digits (q.shift + 1) k m))
      (push_digit q.key n 0 small r.key_lt (omega arith) ∙ add-zero _)
      (push_digit q.mask n 0 small r.mask_lt (omega arith) ∙ add-zero _),
  IsRead-any n p q r,
  refl,
)

-- A run of the loop from a state in which `p` has been read.
abbrev Reads : ℕ → List ℕ → List ℕ → Pattern → Type 0
Reads n str p q =
    (q' : Pattern) × (decode_chars n str q ≡ ok q')
    × ((x : ℕ) → matches q' x ≡ agrees (digits_onto str p) x)

decode_chars-Reads :
    (n : ℕ) (str : List ℕ) (m : ℕ) (p : List ℕ) (q : Pattern)
    → m + n ≤ 64
    → length str < n
    → AreChars str
    → IsRead m p q
    → Reads n str p q
unfolding decode_chars digits_onto
decode_chars-Reads zero str m p q le lt cs r = absurd (omega arith)
decode_chars-Reads (suc n) [] m p q le lt cs r = (finish q, refl, IsRead-finish m p q r)
decode_chars-Reads (suc n) (c ∷ str) m p q le lt (inl blank, cs) r =
    let (q', e, f) = decode_chars-Reads n str m p q (omega arith) (omega arith) cs r in
    (q', ground (arith, e), ground (arith, f))
decode_chars-Reads (suc n) (c ∷ str) m p q le lt (inr d, cs) r =
    let (q₁, e₁, r₁, b) = IsRead-char m p q c (omega arith) r d in
    let (q', e, f) =
      decode_chars-Reads n str (suc m) (c ∷ p) q₁ (omega arith) (omega arith) cs r₁ in
    (q', rw e₁ e, rw b f)

decode_char_outcome :
    (c : ℕ) (q : Pattern)
    → ((q' : Pattern) × (decode_char c q ≡ ok q')) ⊎ (decode_char c q ≡ fail assertion)
unfolding decode_char
decode_char_outcome c q = elim (Bool-cases (c == b' ')) [
  | inl blank ↦ inl (q, rw blank)
  | inr digit ↦ elim (Bool-cases (is_pattern_char c)) [
    | inl good ↦ inl (read_digit c q, rw (digit, good))
    | inr bad ↦ inr (rw (digit, bad))
  ]
]

decode_chars-too_long :
    (n : ℕ) (str : List ℕ) (q : Pattern) → n ≤ length str → decode_chars n str q ≡ fail assertion
unfolding decode_chars
decode_chars-too_long zero str q le = refl
decode_chars-too_long (suc n) [] q le = absurd (omega arith)
decode_chars-too_long (suc n) (c ∷ str) q le = elim (decode_char_outcome c q) [
  | inl (q', e) ↦ rw e (decode_chars-too_long n str q' (omega arith))
  | inr e ↦ rw e
]

-- A pattern string of at most 63 characters, blanks and digits and question marks only, is
-- accepted, and the key, mask and shift that come out match exactly those instruction words whose
-- binary digits agree with the string, character by character.
pub pattern_decode-agrees :
    (str : List ℕ)
    → AreChars str
    → length str < 64
    → (p : Pattern) × (pattern_decode str ≡ ok p)
      × ((x : ℕ) → matches p x ≡ agrees (digits_onto str []) x)
unfolding pattern_decode agrees
pattern_decode-agrees str cs lt =
    decode_chars-Reads 64 str 0 [] (with_digits 0 0 0) (omega arith) lt cs (record {
      key_lt = omega arith;
      mask_lt = omega arith;
      key_shift = refl;
      mask_shift = refl;
      agree = λ x. (==_iff _ _).1 (bit_and-zero x);
    })

-- A string of 64 characters or more is refused with an assertion, whatever its characters are.
pattern_decode-too_long : (str : List ℕ) → 64 ≤ length str → pattern_decode str ≡ fail assertion
unfolding pattern_decode
pattern_decode-too_long str le = decode_chars-too_long 64 str _ le
