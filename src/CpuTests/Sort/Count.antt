-- ===== src/CpuTests/Sort/Count.antt =====
-- bubble_sort keeps the elements of an array.
use rv32i.Base.{
  ℕ, zero, suc, ◌+◌, ◌-◌, ◌≤◌, ◌<◌, ◌≡◌, refl, arith, Bool, true, false, ◌==◌, ltb, if◌then◌else◌,
  of_bool, ap, ◌∙◌, inl, inr, Bool-cases, ==_iff, subst, sym, ap₂,
}
use rv32i.Word.{slt32}
use rv32i.CpuTests.Sort.{sort_pair, bubble_pass, bubble_loop, bubble_sort}
use rv32i.CpuTests.Sort.Pair.{key, swapped, swapped-at}
use rv32i.CpuTests.Sort.Order.{IsSettledFrom, bubble_loop-IsSettledFrom}

-- How often a word occurs among the first `n` elements.
unfoldable pub count : ℕ → ℕ → (ℕ → ℕ) → ℕ
count zero v a = 0
count (suc n) v a = count n v a + of_bool (a n == v)

count-congr : (n v : ℕ) (a b : ℕ → ℕ) → ((p : ℕ) → p < n → a p ≡ b p) → count n v a ≡ count n v b
unfolding count
count-congr zero v a b h = refl
count-congr (suc n) v a b h =
    ap₂ (λ c x. c + of_bool (x == v)) (count-congr n v a b (λ p lt. h p (omega arith)))
      (h n (omega arith))

module _ (v i : ℕ) (a : ℕ → ℕ) where
  count-swapped_pair : count (suc (suc i)) v (swapped i a) ≡ count (suc (suc i)) v a
  unfolding count
  count-swapped_pair = (λ j. below j + of_bool (lo j == v) + of_bool (hi j == v)) ∙ omega arith
    where
      below : count i v (swapped i a) ≡ count i v a
      below = count-congr i v (swapped i a) a λ p lt. ground arith

      lo : swapped i a i ≡ a (suc i)
      lo = (swapped-at i a).0 ∙ ap a (omega arith)

      hi : swapped i a (suc i) ≡ a i
      hi = ground arith

  count-swapped : (n : ℕ) → i + 1 < n → count n v (swapped i a) ≡ count n v a
  unfolding count
  count-swapped zero lt = absurd (omega arith)
  count-swapped (suc n) lt = elim (Bool-cases (n == suc i)) [
    | inl e ↦
        subst (λ m. count (suc m) v (swapped i a) ≡ count (suc m) v a)
          (sym ((==_iff n (suc i)).0 e)) count-swapped_pair
    | inr ne ↦
        let same : swapped i a n ≡ a n = ground arith in
        λ j. count-swapped n (ground arith) j + of_bool (same j == v)
  ]

sort_pair-count : (v i n : ℕ) (a : ℕ → ℕ) → i + 1 < n → count n v (sort_pair i a) ≡ count n v a
unfolding sort_pair slt32
sort_pair-count v i n a lt = tested (ltb (key (a (i + 1))) (key (a i)))
  where
    tested : (b : Bool) → count n v (if b then swapped i a else a) ≡ count n v a
    tested true = count-swapped v i a n lt
    tested false = refl

bubble_pass-count :
    (v rounds i n : ℕ) (a : ℕ → ℕ)
    → i + rounds < n
    → count n v (bubble_pass rounds i a) ≡ count n v a
unfolding bubble_pass
bubble_pass-count v zero i n a lt = refl
bubble_pass-count v (suc rounds) i n a lt =
    bubble_pass-count v rounds (i + 1) n (sort_pair i a) (omega arith)
    ∙ sort_pair-count v i n a (omega arith)

bubble_loop-count :
    (v rounds n j : ℕ) (a : ℕ → ℕ)
    → rounds + j ≡ n
    → count n v (bubble_loop rounds n j a) ≡ count n v a
unfolding bubble_loop
bubble_loop-count v zero n j a e = refl
bubble_loop-count v (suc rounds) n j a e =
    bubble_loop-count v rounds n (j + 1) (bubble_pass (n - 1 - j) 0 a) (omega arith)
    ∙ bubble_pass-count v (n - 1 - j) 0 n a (omega arith)

-- bubble_sort puts every array of int in order, by the signed order of the words, and keeps how often
-- each word occurs in it.
pub bubble_sort-IsSorted :
    (n : ℕ) (a : ℕ → ℕ)
    → ((p q : ℕ) → p ≤ q → q < n → key (bubble_sort n a p) ≤ key (bubble_sort n a q))
      × ((v : ℕ) → count n v (bubble_sort n a) ≡ count n v a)
unfolding bubble_sort IsSettledFrom
bubble_sort-IsSorted n a = (
  λ p q le lt.
      bubble_loop-IsSettledFrom n n 0 a (omega arith) (λ r t _ from below. absurd (omega arith)) p q
        le (omega arith) lt,
  λ v. bubble_loop-count v n n 0 a (omega arith),
)
