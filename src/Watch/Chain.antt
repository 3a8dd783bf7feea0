-- ===== src/Watch/Chain.antt =====
-- Chains of nodes: the lists that head and free_ lead through.
use rv32i.Base.{
  ℕ, zero, suc, ◌<◌, ◌≡◌, arith, Bool, true, false, ◌==◌, ◌||◌, if◌then◌else◌, List, [], ◌∷◌,
  Option, none, some, length, ap, ok, Bool-cases, inl, inr, ==_iff,
}
use rv32i.Watch.{Nodes, set_next, find_pre}

abbrev pub has : ℕ → List ℕ → Bool
has a [] = false
has a (x ∷ xs) = (a == x) || has a xs

abbrev pub Distinct : List ℕ → Type 0
Distinct [] = Unit
Distinct (x ∷ xs) = (has x xs ≡ false) × Distinct xs

-- From `p` the next pointers lead through the nodes of the list, and end.
abbrev pub Chain : Nodes → Option ℕ → List ℕ → Type 0
Chain nodes p [] = p ≡ none
Chain nodes p (x ∷ xs) = (p ≡ some x) × Chain nodes (nodes x).next xs

-- The list without its first `n`.
abbrev pub erase : ℕ → List ℕ → List ℕ
erase n [] = []
erase n (x ∷ xs) = if x == n then xs else x ∷ erase n xs

-- The element in front of `n`, or the last.
abbrev pub before : ℕ → ℕ → List ℕ → ℕ
before n x [] = x
before n x (y ∷ ys) = if y == n then x else before n y ys

-- A chain does not see what happens to other nodes.
pub Chain-congr :
    (f g : Nodes) (p : Option ℕ) (xs : List ℕ)
    → ((i : ℕ) → has i xs ≡ true → (g i).next ≡ (f i).next)
    → Chain f p xs
    → Chain g p xs
Chain-congr f g p [] same c = c
Chain-congr f g p (x ∷ xs) same c =
    (c.0, Chain-congr f g _ xs (λ i h. same i (ground arith)) (rw (same x (ground arith)) c.1))

-- The numbers of the nodes are their indices.
abbrev pub AreNumbered : Nodes → List ℕ → Type 0
AreNumbered nodes xs = (i : ℕ) → has i xs ≡ true → (nodes i).no ≡ i

-- With fuel for the length of the chain, the loop finds the node in front of `n`.
pub find_pre-before :
    (fuel n : ℕ) (nodes : Nodes) (x : ℕ) (xs : List ℕ)
    → length xs < fuel
    → AreNumbered nodes xs
    → Chain nodes (nodes x).next xs
    → find_pre fuel n nodes x ≡ ok (before n x xs)
unfolding find_pre
find_pre-before zero n nodes x xs lt num c = absurd (omega arith)
find_pre-before (suc fuel) n nodes x [] lt num c = rw (c, find_pre)
find_pre-before (suc fuel) n nodes x (y ∷ ys) lt num c = ground (
  arith,
  num y (ground arith),
  find_pre-before fuel n nodes y ys (omega arith) (λ i h. num i (ground arith)) c.1,
)

-- The next pointers behind detach.
abbrev pub detached : Nodes → ℕ → ℕ → Option ℕ → Nodes
detached nodes wp_pre w q = set_next (set_next nodes wp_pre (nodes w).next) w q

pub before-has : (n y : ℕ) (ys : List ℕ) → (before n y ys == y) || has (before n y ys) ys ≡ true
before-has n y [] = ground arith
before-has n y (z ∷ zs) = ground (arith, before-has n z zs)

pub ne_of_has :
    (a b : ℕ) (xs : List ℕ)
    → has a xs ≡ true
    → has b xs ≡ false
    → ((a == b) ≡ false) × ((b == a) ≡ false)
ne_of_has a b xs h g = elim (Bool-cases (a == b)) [
  | inl e ↦ absurd (let p : a ≡ b = (==_iff a b).0 e in ground (arith, ap (λ n. has n xs) p))
  | inr e ↦ (e, ground arith)
]

-- Taking `n` out of a chain that has it behind `x`.
pub Chain-erase :
    (n : ℕ) (nodes : Nodes) (q : Option ℕ) (x : ℕ) (xs : List ℕ)
    → Distinct (x ∷ xs)
    → has n xs ≡ true
    → Chain nodes (nodes x).next xs
    → Chain
        (detached nodes (before n x xs) n q)
        (detached nodes (before n x xs) n q x).next
        (erase n xs)
Chain-erase n nodes q x [] d h c = cc
Chain-erase n nodes q x (y ∷ ys) d h c = elim (Bool-cases (y == n)) [
  | inl e ↦ rw e (
      let at_n : y ≡ n = (==_iff y n).0 e in
      let off : (n == x) ≡ false = (ne_of_has n x (y ∷ ys) h d.0).0 in
      Chain-congr nodes (detached nodes x n q) (detached nodes x n q x).next ys
        (λ i m. ground (arith, ne_of_has i x (y ∷ ys) (ground arith) d.0, ne_of_has i y ys m d.1.0))
        (ground (arith, c.1, ap (λ k. (nodes k).next) at_n)))
  | inr e ↦ rw e (
      let g : has n ys ≡ true = ground arith in
      (
        ground (
          arith,
          c.0,
          ne_of_has (before n y ys) x (y ∷ ys) (before-has n y ys) d.0,
          ne_of_has n x (y ∷ ys) h d.0,
        ),
        Chain-erase n nodes q y ys d.1 g c.1,
      ))
]
