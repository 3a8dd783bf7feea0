-- ===== src/CpuTests/Pascal/Binomial.antt =====
-- pascal computes binomial coefficients.
use rv32i.Base.{
  ℕ, suc, zero, ◌+◌, ◌-◌, ◌%◌, ◌≤◌, ◌<◌, ◌≡◌, ◌⊎◌, inl, inr, refl, arith, ◌==◌, Bool-cases, ==_iff,
  ap, ap₂, sym, subst, ◌∙◌,
}
use rv32i.Word.{u32, add32}
use rv32i.Machine.{update}
use rv32i.CpuTests.Pascal.{pascal_row, pascal_loop, pascal}

-- The number of subsets of `k` among `n`.
abbrev pub binomial : ℕ → ℕ → ℕ
binomial n zero = 1
binomial zero (suc k) = 0
binomial (suc n) (suc k) = binomial n k + binomial n (suc k)

binomial-beyond : (n k : ℕ) → n < k → binomial n k ≡ 0
binomial-beyond n zero lt = absurd (omega arith)
binomial-beyond zero (suc k) lt = refl
binomial-beyond (suc n) (suc k) lt =
    omega (arith, binomial-beyond n k (omega arith), binomial-beyond n (suc k) (omega arith))

binomial_self : (n : ℕ) → binomial n n ≡ 1
binomial_self zero = refl
binomial_self (suc n) = omega (arith, binomial_self n, binomial-beyond n (suc n) (omega arith))

-- A row leaves what is before and behind it, and adds each element to the one before it.
pascal_row-other :
    (rounds j t : ℕ) (a : ℕ → ℕ) (p : ℕ)
    → (p < j) ⊎ (j + rounds ≤ p)
    → pascal_row rounds j t a p ≡ a p
unfolding pascal_row
pascal_row-other zero j t a p h = refl
pascal_row-other (suc rounds) j t a p h =
    pascal_row-other rounds (j + 1) (a j) (update a j (add32 t (a j))) p (grind arith) ∙ grind arith

pascal_row-first :
    (rounds j t : ℕ) (a : ℕ → ℕ) → 0 < rounds → pascal_row rounds j t a j ≡ add32 t (a j)
unfolding pascal_row
pascal_row-first zero j t a lt = absurd (omega arith)
pascal_row-first (suc rounds) j t a lt =
    pascal_row-other rounds (j + 1) (a j) (update a j (add32 t (a j))) j (inl (omega arith))
    ∙ ground arith

pascal_row-later :
    (rounds j t : ℕ) (a : ℕ → ℕ) (p : ℕ)
    → j ≤ p
    → suc p < j + rounds
    → pascal_row rounds j t a (suc p) ≡ add32 (a p) (a (suc p))
unfolding pascal_row
pascal_row-later zero j t a p le lt = absurd (omega arith)
pascal_row-later (suc rounds) j t a p le lt = elim (Bool-cases (p == j)) [
  | inl e ↦
      subst (λ q. pascal_row rounds (j + 1) (a j) new (suc q) ≡ add32 (a q) (a (suc q)))
        (sym ((==_iff p j).0 e)) second
  | inr ne ↦
      pascal_row-later rounds (j + 1) (a j) new p (ground arith) (omega arith)
      ∙ ap₂ add32 (kept p (ground arith)) (kept (suc p) (omega arith))
]
  where
    new : ℕ → ℕ
    new = update a j (add32 t (a j))

    kept : (q : ℕ) → j < q → new q ≡ a q
    kept q g = ground arith

    next : j + 1 ≡ suc j
    next = omega arith

    second : pascal_row rounds (j + 1) (a j) new (suc j) ≡ add32 (a j) (a (suc j))
    second =
        subst (λ q. pascal_row rounds (j + 1) (a j) new q ≡ add32 (a j) (a q)) next
          (pascal_row-first rounds (j + 1) (a j) new (omega arith)
            ∙ ap (add32 (a j)) (kept (j + 1) (omega arith)))

-- The elements up to `m` are the row `m` of the triangle, as words.
IsRow : ℕ → (ℕ → ℕ) → Type 0
IsRow m a = (p : ℕ) → p ≤ m → a p ≡ binomial m p % u32

-- The sum of two neighbours, as words.
sum_of :
    (m p x y : ℕ)
    → x ≡ binomial m p % u32
    → y ≡ binomial m (suc p) % u32
    → add32 x y ≡ binomial (suc m) (suc p) % u32
unfolding add32
sum_of m p x y e f = omega (arith, e, f)

pascal_row-inner :
    (m p : ℕ) (a : ℕ → ℕ)
    → p < m
    → IsRow m a
    → pascal_row m 1 1 a (suc p) ≡ binomial (suc m) (suc p) % u32
unfolding IsRow
pascal_row-inner m zero a lt h =
    pascal_row-first m 1 1 a lt ∙ sum_of m 0 1 (a 1) refl (h 1 (omega arith))
pascal_row-inner m (suc p) a lt h =
    pascal_row-later m 1 1 a (suc p) (omega arith) (omega arith)
    ∙ sum_of m (suc p) (a (suc p)) (a (suc (suc p))) (h (suc p) (omega arith))
        (h (suc (suc p)) (omega arith))

-- The body of the outer loop makes the next row.
next-IsRow : (m : ℕ) (a : ℕ → ℕ) → IsRow m a → IsRow (suc m) (update (pascal_row m 1 1 a) (suc m) 1)
unfolding IsRow
next-IsRow m a h zero le =
    ground arith ∙ pascal_row-other m 1 1 a 0 (inl (omega arith)) ∙ h 0 (omega arith)
next-IsRow m a h (suc p) le = elim (Bool-cases (p == m)) [
  | inl e ↦
      subst (λ q. update (pascal_row m 1 1 a) (suc m) 1 (suc q) ≡ binomial (suc m) (suc q) % u32)
        (sym ((==_iff p m).0 e)) last
  | inr ne ↦ other (ground arith) ∙ pascal_row-inner m p a (ground arith) h
]
  where
    last : update (pascal_row m 1 1 a) (suc m) 1 (suc m) ≡ binomial (suc m) (suc m) % u32
    last =
        let own : update (pascal_row m 1 1 a) (suc m) 1 (suc m) ≡ 1 = ground arith in
        own ∙ ap (λ n. n % u32) (sym (binomial_self (suc m)))

    other : p < m → update (pascal_row m 1 1 a) (suc m) 1 (suc p) ≡ pascal_row m 1 1 a (suc p)
    other lt = ground arith

pascal_loop-IsRow :
    (rounds m i : ℕ) (a : ℕ → ℕ)
    → suc m ≡ i
    → IsRow m a
    → IsRow (m + rounds) (pascal_loop rounds i a)
unfolding pascal_loop
pascal_loop-IsRow zero m i a e h = subst (λ k. IsRow k a) (omega arith) h
pascal_loop-IsRow (suc rounds) m i a e h =
    subst (λ k. IsRow k (pascal_loop rounds (i + 1) (update (pascal_row (i - 1) 1 1 a) i 1))) total
      (pascal_loop-IsRow rounds (suc m) (i + 1) _ (omega (arith, e)) row)
  where
    total : suc m + rounds ≡ m + suc rounds
    total = omega arith

    row : IsRow (suc m) (update (pascal_row (i - 1) 1 1 a) i 1)
    row =
        let before : m ≡ i - 1 = omega (arith, e) in
        subst (λ r. IsRow (suc m) (update (pascal_row r 1 1 a) i 1)) before
          (subst (λ k. IsRow (suc m) (update (pascal_row m 1 1 a) k 1)) e (next-IsRow m a h))

-- With `n` rows, at least two, the program leaves the binomial coefficients of n - 1, as 32-bit words,
-- in the first `n` elements of the array.
pub pascal-binomial :
    (n : ℕ) (a : ℕ → ℕ) (p : ℕ) → 2 ≤ n → p < n → pascal n a p ≡ binomial (n - 1) p % u32
unfolding pascal IsRow
pascal-binomial n a p two lt =
    let rows = pascal_loop-IsRow (n - 2) 1 2 (update (update a 1 1) 0 1) refl first in
    rows p (omega arith) ∙ ap (λ m. binomial m p % u32) same
  where
    first : IsRow 1 (update (update a 1 1) 0 1)
    first zero le = refl
    first (suc zero) le = refl
    first (suc (suc q)) le = absurd (omega arith)

    same : 1 + (n - 2) ≡ n - 1
    same = omega arith
