-- ===== src/Pattern/Agrees.antt =====
-- What a pattern says of an instruction word, digit by digit.
use rv32i.Base.{
  ℕ, suc, ◌+◌, ◌/◌, ◌%◌, ◌^◌, ◌≡◌, refl, arith, Bool, true, false, ◌==◌, ◌&&◌, if◌then◌else◌, List,
  [], ◌∷◌, ◌++◌, length, ap, ap₂, ◌∙◌, sym,
}
use native.Mathlib.Nat.{div-one}
use rv32i.Base.Bits.{div-pow-suc, mod-pow-suc}

-- A question mark takes either digit, any other character its own.
unfoldable pub digit_agrees : ℕ → ℕ → Bool
digit_agrees c d = if c == b'?' then true else c == b'0' + d

-- A pattern read from its last character, which stands for the lowest digit.
unfoldable pub agrees : List ℕ → ℕ → Bool
unfolding digit_agrees
agrees [] x = true
agrees (c ∷ p) x = digit_agrees c (x % 2) && agrees p (x / 2)

-- The characters that stand for a digit, the last one first, put before `last`.
unfoldable pub digits_onto : List ℕ → List ℕ → List ℕ
digits_onto [] last = last
digits_onto (c ∷ str) last = digits_onto str (if c == b' ' then last else c ∷ last)

and_assoc : (a b c : Bool) → (a && (b && c)) ≡ ((a && b) && c)
and_assoc true b c = refl
and_assoc false b c = refl

-- A pattern is tested part by part.
pub agrees-append :
    (p q : List ℕ) (x : ℕ) → agrees (p ++ q) x ≡ (agrees p x && agrees q (x / 2 ^ length p))
unfolding agrees
agrees-append [] q x = ap (agrees q) (sym (div-one x))
agrees-append (c ∷ p) q x =
    rw (agrees-append p q (x / 2), div-pow-suc x (length p))
      (and_assoc (digit_agrees c (x % 2)) (agrees p (x / 2)) _)

-- Only the digits that a pattern covers matter to it.
pub agrees-mod : (p : List ℕ) (x : ℕ) → agrees p (x % 2 ^ length p) ≡ agrees p x
unfolding agrees
agrees-mod [] x = refl
agrees-mod (c ∷ p) x =
    ap₂ (λ d n. digit_agrees c d && agrees p n) low high
    ∙ ap (λ b. digit_agrees c (x % 2) && b) (agrees-mod p (x / 2))
  where
    low : x % 2 ^ suc (length p) % 2 ≡ x % 2
    low = omega (arith, mod-pow-suc x (length p))

    high : x % 2 ^ suc (length p) / 2 ≡ x / 2 % 2 ^ length p
    high = omega (arith, mod-pow-suc x (length p))
