-- ===== src/Klib/Atoi.antt =====
-- atoi reads decimal numbers.
use rv32i.Base.{
  ℕ, zero, suc, ◌+◌, ◌-◌, ◌*◌, ◌/◌, ◌%◌, ◌^◌, ◌≤◌, ◌<◌, ◌≡◌, refl, arith, true, false, ltb,
  if◌then◌else◌, List, [], ◌∷◌, ◌++◌, some, ap, sym, subst, ◌⊎◌, inl, inr, ◌∙◌, lt→ltb, ge→ltb,
}
use rv32i.Klib.{skip_blanks, is_digit, digit_loop, atoi}

-- The decimal digits of a number, the last one printed last; n + 1 digits are room enough for n.
abbrev pub digits : ℕ → ℕ → List ℕ
digits zero n = []
digits (suc room) n =
    let front = digits room (n / 10) in (if ltb n 10 then [] else front) ++ (b'0' + n % 10) ∷ []

abbrev pub decimal : ℕ → List ℕ
decimal n = digits (suc n) n

abbrev pub blanks : ℕ → List ℕ
blanks zero = []
blanks (suc k) = b' ' ∷ blanks k

-- The text is at its end or goes on with something other than a digit.
abbrev pub IsStop : List ℕ → Type 0
IsStop [] = Unit {0}
IsStop (c ∷ s) = is_digit c ≡ false

is_digit-code : (d : ℕ) → d < 10 → is_digit (b'0' + d) ≡ true
is_digit-code d small = ground arith

minus_code : (y d : ℕ) → y + (b'0' + d) - b'0' ≡ y + d
minus_code y d = omega arith

append-snoc : (xs : List ℕ) (c : ℕ) (s : List ℕ) → (xs ++ c ∷ []) ++ s ≡ xs ++ c ∷ s
append-snoc [] c s = refl
append-snoc (x ∷ xs) c s = ap (λ t. x ∷ t) (append-snoc xs c s)

digits-small : (room n : ℕ) → n < 10 → digits (suc room) n ≡ (b'0' + n % 10) ∷ []
digits-small room n small = rw (lt→ltb n 10 small)

digits-big :
    (room n : ℕ) (s : List ℕ)
    → 10 ≤ n
    → digits (suc room) n ++ s ≡ digits room (n / 10) ++ (b'0' + n % 10) ∷ s
digits-big room n s big = rw (ge→ltb n 10 big, append-snoc (digits room (n / 10)) (b'0' + n % 10) s)

digit_loop-digit :
    (x d : ℕ) (s : List ℕ)
    → d < 10
    → x * 10 + d + b'0' < 2 ^ 31
    → digit_loop ((b'0' + d) ∷ s) x ≡ digit_loop s (x * 10 + d)
unfolding digit_loop
digit_loop-digit x d s small fits = rw (
  is_digit-code d small,
  lt→ltb (x * 10 + (b'0' + d)) (2 ^ 31) (omega arith),
  minus_code (x * 10) d,
)

small_or_big : (n : ℕ) → (n < 10) ⊎ (10 ≤ n)
small_or_big n = ground arith

digit_loop-digits :
    (room n : ℕ) (s : List ℕ)
    → n < room
    → n + b'0' < 2 ^ 31
    → digit_loop (digits room n ++ s) 0 ≡ digit_loop s n
digit_loop-digits zero n s enough fits = absurd (omega arith)
digit_loop-digits (suc room) n s enough fits = elim (small_or_big n) [
  | inl small ↦
      ap (λ t. digit_loop (t ++ s) 0) (digits-small room n small)
      ∙ digit_loop-digit 0 (n % 10) s (omega arith) (omega arith)
      ∙ ap (digit_loop s) (omega arith)
  | inr big ↦
      ap (λ t. digit_loop t 0) (digits-big room n s big)
      ∙ digit_loop-digits room (n / 10) ((b'0' + n % 10) ∷ s) (omega arith) (omega arith)
      ∙ digit_loop-digit (n / 10) (n % 10) s (omega arith) (omega arith)
      ∙ ap (digit_loop s) (omega arith)
]

skip_blanks-visible : (c : ℕ) (s : List ℕ) → b' ' < c → skip_blanks (c ∷ s) ≡ c ∷ s
unfolding skip_blanks
skip_blanks-visible c s visible = ground arith

skip_blanks-digits :
    (room n c : ℕ) (s : List ℕ)
    → b' ' < c
    → skip_blanks (digits room n ++ c ∷ s) ≡ digits room n ++ c ∷ s
skip_blanks-digits zero n c s visible = skip_blanks-visible c s visible
skip_blanks-digits (suc room) n c s visible = elim (small_or_big n) [
  | inl small ↦
      subst (λ t. skip_blanks (t ++ c ∷ s) ≡ t ++ c ∷ s) (sym (digits-small room n small))
        (skip_blanks-visible (b'0' + n % 10) (c ∷ s) (omega arith))
  | inr big ↦
      subst (λ t. skip_blanks t ≡ t) (sym (digits-big room n (c ∷ s) big))
        (skip_blanks-digits room (n / 10) (b'0' + n % 10) (c ∷ s) (omega arith))
]

skip_blanks-decimal : (n : ℕ) (s : List ℕ) → skip_blanks (decimal n ++ s) ≡ decimal n ++ s
skip_blanks-decimal n s = elim (small_or_big n) [
  | inl small ↦
      subst (λ t. skip_blanks (t ++ s) ≡ t ++ s) (sym (digits-small n n small))
        (skip_blanks-visible (b'0' + n % 10) s (omega arith))
  | inr big ↦
      subst (λ t. skip_blanks t ≡ t) (sym (digits-big n n s big))
        (skip_blanks-digits n (n / 10) (b'0' + n % 10) s (omega arith))
]

skip_blanks-blanks :
    (k n : ℕ) (s : List ℕ) → skip_blanks (blanks k ++ decimal n ++ s) ≡ decimal n ++ s
unfolding skip_blanks
skip_blanks-blanks zero n s = skip_blanks-decimal n s
skip_blanks-blanks (suc k) n s = skip_blanks-blanks k n s

digit_loop-IsStop : (s : List ℕ) (x : ℕ) → IsStop s → digit_loop s x ≡ some x
unfolding digit_loop
digit_loop-IsStop [] x stop = refl
digit_loop-IsStop (c ∷ s) x stop = rw stop

-- atoi reads back a number in decimal, whatever blanks stand before it and whatever other than a
-- digit stands behind it, if the number plus the code of '0' is an int.
pub atoi-decimal :
    (k n : ℕ) (s : List ℕ)
    → n + b'0' < 2 ^ 31
    → IsStop s
    → atoi (blanks k ++ decimal n ++ s) ≡ some n
unfolding atoi
atoi-decimal k n s fits stop =
    ap (λ t. digit_loop t 0) (skip_blanks-blanks k n s)
    ∙ digit_loop-digits (suc n) n s (omega arith) fits
    ∙ digit_loop-IsStop s n stop
