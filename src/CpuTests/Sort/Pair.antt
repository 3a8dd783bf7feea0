-- ===== src/CpuTests/Sort/Pair.antt =====
-- One comparison of bubble_sort.
use rv32i.Base.{
  ℕ, ◌+◌, ◌%◌, ◌^◌, ◌≤◌, ◌<◌, ◌≡◌, refl, arith, Bool, true, false, ◌==◌, ltb, if◌then◌else◌, ◌⊎◌,
  inl, inr, Bool-cases, ==_iff, ltb→lt, subst, sym,
}
use rv32i.Word.{u32, slt32}
use rv32i.Machine.{update}
use rv32i.CpuTests.Sort.{sort_pair}

-- The order of int32_t: the words with the sign bit flipped.
abbrev pub key : ℕ → ℕ
key x = (x + 2 ^ 31) % u32

-- What one comparison leaves.
pub record IsPaired (i : ℕ) (a b : ℕ → ℕ) : Type 0 where
  pub ordered : key (b i) ≤ key (b (i + 1))
  pub above : key (a i) ≤ key (b (i + 1))
  pub low : (b i ≡ a i) ⊎ (b i ≡ a (i + 1))
  pub high : (b (i + 1) ≡ a i) ⊎ (b (i + 1) ≡ a (i + 1))
  pub rest : (p : ℕ) → (p < i) ⊎ (i + 1 < p) → b p ≡ a p

-- The body with the test as a Boolean.
abbrev pub swapped : ℕ → (ℕ → ℕ) → ℕ → ℕ
swapped i a = update (update a i (a (i + 1))) (i + 1) (a i)

pub swapped-at : (i : ℕ) (a : ℕ → ℕ) → (swapped i a i ≡ a (i + 1)) × (swapped i a (i + 1) ≡ a i)
swapped-at i a = (ground arith, ground arith)

pub sort_pair-IsPaired : (i : ℕ) (a : ℕ → ℕ) → IsPaired i a (sort_pair i a)
unfolding sort_pair slt32
sort_pair-IsPaired i a = tested (ltb (key (a (i + 1))) (key (a i))) refl
  where
    tested :
        (b : Bool)
        → ltb (key (a (i + 1))) (key (a i)) ≡ b
        → IsPaired i a (if b then swapped i a else a)
    tested true e =
        let (lo, hi) = swapped-at i a in
        record {
          ordered = rw (lo, hi) (ground arith);
          above = rw hi (omega arith);
          low = inr lo;
          high = inl hi;
          rest = λ p h. grind arith;
        }
    tested false e = record {
      ordered = ground arith;
      above = ground arith;
      low = inl refl;
      high = inr refl;
      rest = λ p h. refl;
    }

-- An index is one of the pair, or neither.
pub pair-cases : (i p : ℕ) → (p ≡ i) ⊎ ((p ≡ i + 1) ⊎ ((p < i) ⊎ (i + 1 < p)))
pair-cases i p = elim (Bool-cases (p == i)) [
  | inl e ↦ inl ((==_iff p i).0 e)
  | inr ne ↦ elim (Bool-cases (p == i + 1)) [
    | inl e ↦ inr (inl ((==_iff p (i + 1)).0 e))
    | inr ne' ↦ inr (
        inr (elim (Bool-cases (ltb p i)) [
          | inl lt ↦ inl (ltb→lt p i lt)
          | inr ge ↦ inr (ground arith)
        ]))
  ]
]

pub one_of : (P : ℕ → Type 0) {x y z : ℕ} → P y → P z → (x ≡ y) ⊎ (x ≡ z) → P x
one_of P py pz (inl e) = subst P (sym e) py
one_of P py pz (inr e) = subst P (sym e) pz
