-- ===== src/CpuTests/Sort/Order.antt =====
-- bubble_sort puts an array in order.
use rv32i.Base.{
  ℕ, zero, suc, ◌+◌, ◌-◌, ◌≤◌, ◌<◌, ◌≡◌, refl, arith, ◌==◌, ltb, ◌∙◌, inl, inr, Bool-cases, ==_iff,
  ltb→lt, subst, sym,
}
use rv32i.CpuTests.Sort.{sort_pair, bubble_pass, bubble_loop}
use rv32i.CpuTests.Sort.Pair.{key, sort_pair-IsPaired, pair-cases, one_of}

-- What holds of every element up to `hi` holds behind a comparison.
sort_pair-all :
    (P : ℕ → Type 0) (i hi : ℕ) (a : ℕ → ℕ)
    → i + 1 ≤ hi
    → ((p : ℕ) → p ≤ hi → P (a p))
    → (p : ℕ) → p ≤ hi
    → P (sort_pair i a p)
sort_pair-all P i hi a lt h p le =
    let k = sort_pair-IsPaired i a in
    elim (pair-cases i p) [
      | inl e ↦
          subst (λ q. P (sort_pair i a q)) (sym e)
            (one_of P (h i (omega arith)) (h (i + 1) lt) k.low)
      | inr (inl e) ↦
          subst (λ q. P (sort_pair i a q)) (sym e)
            (one_of P (h i (omega arith)) (h (i + 1) lt) k.high)
      | inr (inr off) ↦ subst P (sym (k.rest p off)) (h p le)
    ]

bubble_pass-all :
    (P : ℕ → Type 0) (rounds i hi : ℕ) (a : ℕ → ℕ)
    → i + rounds ≤ hi
    → ((p : ℕ) → p ≤ hi → P (a p))
    → (p : ℕ) → p ≤ hi
    → P (bubble_pass rounds i a p)
unfolding bubble_pass
bubble_pass-all P zero i hi a lt h = h
bubble_pass-all P (suc rounds) i hi a lt h =
    bubble_pass-all P rounds (i + 1) hi (sort_pair i a) (omega arith)
      (sort_pair-all P i hi a (omega arith) h)

bubble_pass-rest :
    (rounds i : ℕ) (a : ℕ → ℕ) (p : ℕ) → i + rounds < p → bubble_pass rounds i a p ≡ a p
unfolding bubble_pass
bubble_pass-rest zero i a p lt = refl
bubble_pass-rest (suc rounds) i a p lt =
    bubble_pass-rest rounds (i + 1) (sort_pair i a) p (omega arith)
    ∙ (sort_pair-IsPaired i a).rest p (inr (omega arith))

-- Behind a comparison the second of the pair is the greatest so far.
sort_pair-top :
    (i : ℕ) (a : ℕ → ℕ)
    → ((p : ℕ) → p ≤ i → key (a p) ≤ key (a i))
    → (p : ℕ) → p ≤ i + 1
    → key (sort_pair i a p) ≤ key (sort_pair i a (i + 1))
sort_pair-top i a h p le =
    let k = sort_pair-IsPaired i a in
    elim (pair-cases i p) [
      | inl e ↦ subst (λ q. key (sort_pair i a q) ≤ key (sort_pair i a (i + 1))) (sym e) k.ordered
      | inr (inl e) ↦
          subst (λ q. key (sort_pair i a q) ≤ key (sort_pair i a (i + 1))) (sym e) (omega arith)
      | inr (inr off) ↦
          subst (λ x. key x ≤ key (sort_pair i a (i + 1))) (sym (k.rest p off))
            (omega (arith, h p (ground arith), k.above))
    ]

-- A pass moves the greatest element to its end.
bubble_pass-top :
    (rounds i : ℕ) (a : ℕ → ℕ)
    → ((p : ℕ) → p ≤ i → key (a p) ≤ key (a i))
    → (p : ℕ) → p ≤ i + rounds
    → key (bubble_pass rounds i a p) ≤ key (bubble_pass rounds i a (i + rounds))
unfolding bubble_pass
bubble_pass-top zero i a h p le =
    subst (λ n. key (a p) ≤ key (a n)) (omega arith) (h p (omega arith))
bubble_pass-top (suc rounds) i a h p le =
    subst
      (λ n.
        key (bubble_pass rounds (i + 1) (sort_pair i a) p)
        ≤ key (bubble_pass rounds (i + 1) (sort_pair i a) n))
      (omega arith)
      (bubble_pass-top rounds (i + 1) (sort_pair i a) (sort_pair-top i a h) p (omega arith))

-- From index `top` on the array is in order, and nothing before `top` is greater.
unfoldable pub IsSettledFrom : ℕ → ℕ → (ℕ → ℕ) → Type 0
IsSettledFrom top n a = (p q : ℕ) → p ≤ q → top ≤ q → q < n → key (a p) ≤ key (a q)

bubble_pass-IsSettledFrom :
    (top n : ℕ) (a : ℕ → ℕ)
    → top < n
    → IsSettledFrom (top + 1) n a
    → IsSettledFrom top n (bubble_pass top 0 a)
unfolding IsSettledFrom
bubble_pass-IsSettledFrom top n a lt h p q le from below =
    let b = bubble_pass top 0 a in
    elim (Bool-cases (q == top)) [
      | inl e ↦
          subst (λ n. key (b p) ≤ key (b n)) (zero_plus ∙ sym ((==_iff q top).0 e))
            (bubble_pass-top top 0 a
              (λ r z. subst (λ n. key (a n) ≤ key (a 0)) (zero_of r z) (omega arith)) p
              (ground arith))
      | inr ne ↦
          let same : b q ≡ a q = bubble_pass-rest top 0 a q (ground arith) in
          subst (λ x. key (b p) ≤ key x) (sym same)
            (elim (Bool-cases (ltb top p)) [
              | inl gt ↦
                  subst (λ x. key x ≤ key (a q))
                    (sym (bubble_pass-rest top 0 a p (omega (arith, ltb→lt top p gt))))
                    (h p q le (ground arith) below)
              | inr small ↦
                  bubble_pass-all (λ x. key x ≤ key (a q)) top 0 top a (omega arith)
                    (λ r z. h r q (ground arith) (ground arith) below) p (ground arith)
            ])
    ]
  where
    zero_of : (r : ℕ) → r ≤ 0 → 0 ≡ r
    zero_of r z = omega arith

    zero_plus : 0 + top ≡ top
    zero_plus = omega arith

pub bubble_loop-IsSettledFrom :
    (rounds n j : ℕ) (a : ℕ → ℕ)
    → rounds + j ≡ n
    → IsSettledFrom rounds n a
    → IsSettledFrom 0 n (bubble_loop rounds n j a)
unfolding bubble_loop
bubble_loop-IsSettledFrom zero n j a e h = h
bubble_loop-IsSettledFrom (suc rounds) n j a e h =
    bubble_loop-IsSettledFrom rounds n (j + 1) (bubble_pass (n - 1 - j) 0 a) (omega arith) (
      subst (λ top. IsSettledFrom rounds n (bubble_pass top 0 a)) same
        (bubble_pass-IsSettledFrom rounds n a (omega arith)
          (subst (λ top. IsSettledFrom top n a) next h)))
  where
    same : rounds ≡ n - 1 - j
    same = omega arith

    next : suc rounds ≡ rounds + 1
    next = omega arith
