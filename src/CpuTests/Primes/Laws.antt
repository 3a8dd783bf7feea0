-- ===== src/CpuTests/Primes/Laws.antt =====
-- goldbach finds exactly the sums of two primes.
use rv32i.Base.{
  ℕ, zero, suc, ◌+◌, ◌-◌, ◌%◌, ◌≤◌, ◌<◌, ◌≡◌, ◌↔◌, refl, arith, Bool, true, false, ◌==◌, ◌&&◌, ltb,
  if◌then◌else◌, Bool-cases, inl, inr, ==_iff, ltb→lt, ap, sym, ◌∙◌,
}
use rv32i.CpuTests.Primes.{no_divisor, is_prime, find_sum, goldbach}

-- A number with no divisor between 1 and itself.
pub record IsPrime (n : ℕ) : Type 0 where
  pub from : 2 ≤ n
  pub only : (d : ℕ) → 2 ≤ d → d < n → (n % d == 0) ≡ false

no_divisor_sound :
    (rounds n i : ℕ)
    → n ≤ i + rounds
    → no_divisor rounds n i ≡ true
    → (d : ℕ) → i ≤ d
    → d < n
    → (n % d == 0) ≡ false
unfolding no_divisor
no_divisor_sound zero n i enough e d le lt = absurd (omega arith)
no_divisor_sound (suc rounds) n i enough e d le lt = elim (Bool-cases (d == i)) [
  | inl at ↦ ground (arith, (==_iff d i).0 at)
  | inr off ↦ no_divisor_sound rounds n (i + 1) (omega arith) (ground arith) d (ground arith) lt
]

no_divisor_complete :
    (rounds n i : ℕ)
    → ((d : ℕ) → i ≤ d → d < n → (n % d == 0) ≡ false)
    → no_divisor rounds n i ≡ true
unfolding no_divisor
no_divisor_complete zero n i h = refl
no_divisor_complete (suc rounds) n i h =
    ground (arith, h i, no_divisor_complete rounds n (i + 1) (λ d le lt. h d (omega arith) lt))

is_prime-IsPrime : (n : ℕ) → is_prime n ≡ true → IsPrime n
unfolding is_prime
is_prime-IsPrime n e = record {
  from = ground arith;
  only = no_divisor_sound n n 2 (omega arith) (ground arith);
}

IsPrime-is_prime : (n : ℕ) → IsPrime n → is_prime n ≡ true
unfolding is_prime
IsPrime-is_prime n k = ground (arith, k.from, no_divisor_complete n n 2 k.only)

-- A number that is the sum of two primes.
abbrev pub IsSum : ℕ → Type 0
IsSum n = (i : ℕ) × (i < n) × IsPrime i × IsPrime (n - i)

both : (a b : Bool) → a ≡ true → b ≡ true → (a && b) ≡ true
both a b h g = ground arith

of_both : (a b : Bool) → (a && b) ≡ true → (a ≡ true) × (b ≡ true)
of_both a b h = ground arith

abbrev finds : ℕ → ℕ → Bool
finds n i = is_prime i && is_prime (n - i)

find_sum_sound : (rounds n i : ℕ) → find_sum rounds n i ≡ true → IsSum n
unfolding find_sum
find_sum_sound zero n i e = cc
find_sum_sound (suc rounds) n i e =
    tested (find_sum_sound rounds n (i + 1)) (ltb i n) (finds n i) refl refl e
  where
    tested :
        (find_sum rounds n (i + 1) ≡ true → IsSum n)
        → (within found : Bool) → ltb i n ≡ within
        → finds n i ≡ found
        → (if within then (if found then true else find_sum rounds n (i + 1)) else false) ≡ true
        → IsSum n
    tested rest true true w f h =
        let (p, q) = of_both (is_prime i) (is_prime (n - i)) f in
        (i, ltb→lt i n w, is_prime-IsPrime i p, is_prime-IsPrime (n - i) q)
    tested rest true false w f h = rest h
    tested rest false found w f h = cc

find_sum_complete :
    (rounds n i j : ℕ)
    → n ≤ i + rounds
    → i ≤ j
    → j < n
    → finds n j ≡ true
    → find_sum rounds n i ≡ true
unfolding find_sum
find_sum_complete zero n i j enough le lt f = absurd (omega arith)
find_sum_complete (suc rounds) n i j enough le lt f = elim (Bool-cases (finds n i)) [
  | inl e ↦ ground (arith, e)
  | inr e ↦
      let later : i + 1 ≤ j = elim (Bool-cases (i == j)) [
        | inl at ↦ absurd (differ (sym f ∙ ap (finds n) (sym ((==_iff i j).0 at)) ∙ e))
        | inr off ↦ ground arith
      ] in
      ground (arith, e, find_sum_complete rounds n (i + 1) j (omega arith) later lt f)
]
  where
    differ : true ≡ false → ⊥
    differ h = cc

-- For every number, goldbach returns 1 if and only if it is the sum of two primes: numbers from 2 on
-- without a divisor between 1 and themselves.
pub goldbach-IsSum : (n : ℕ) → (goldbach n ≡ true) ↔ IsSum n
unfolding goldbach
goldbach-IsSum n = (
  λ e. find_sum_sound n n 2 e,
  λ (i, lt, p, q).
      find_sum_complete n n 2 i (omega arith) p.from lt
        (both (is_prime i) (is_prime (n - i)) (IsPrime-is_prime i p) (IsPrime-is_prime (n - i) q)),
)
