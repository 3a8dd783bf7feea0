-- ===== src/Watch/Init.antt =====
-- init_wp_pool: the 32 watchpoints, all free, in order.
use rv32i.Base.{
  ℕ, zero, suc, ◌+◌, ◌-◌, ◌≤◌, ◌<◌, ◌≡◌, refl, arith, true, false, ◌==◌, if◌then◌else◌, List, [],
  ◌∷◌, none, some, length, ap, ◌∙◌, Bool-cases, inl, inr, ==_iff, ==_self,
}
use rv32i.Watch.{Nodes, nr_wp, init_nodes, init_wp_pool}
use rv32i.Watch.Chain.{has, Distinct, Chain}
use rv32i.Watch.Refine.{IsPool}

-- The `k` numbers from `i` on.
abbrev pub upward : ℕ → ℕ → List ℕ
upward zero i = []
upward (suc k) i = i ∷ upward k (i + 1)

init_nodes-below : (k i : ℕ) (nodes : Nodes) (j : ℕ) → j < i → init_nodes k i nodes j ≡ nodes j
unfolding init_nodes
init_nodes-below zero i nodes j h = refl
init_nodes-below (suc k) i nodes j h = init_nodes-below k (i + 1) _ j (omega arith) ∙ ground arith

init_nodes-at :
    (k i : ℕ) (nodes : Nodes) (j : ℕ)
    → i ≤ j
    → j < i + k
    → ((init_nodes k i nodes j).no ≡ j)
      × ((init_nodes k i nodes j).next ≡ (if j == nr_wp - 1 then none else some (j + 1)))
unfolding init_nodes
init_nodes-at zero i nodes j h g = absurd (omega arith)
init_nodes-at (suc k) i nodes j h g = elim (Bool-cases (i == j)) [
  | inl e ↦
      let p : i ≡ j = (==_iff i j).0 e in
      rw p (rw (init_nodes-below k (j + 1) _ j (omega arith), ==_self j) (refl, refl))
  | inr e ↦ init_nodes-at k (i + 1) _ j (ground arith) (omega arith)
]

has-upward : (k i j : ℕ) → has j (upward k i) ≡ true → (i ≤ j) × (j < i + k)
has-upward zero i j h = cc
has-upward (suc k) i j h = ground (arith, has-upward k (i + 1) j)

upward-out : (k i j : ℕ) → j < i → has j (upward k i) ≡ false
upward-out zero i j h = refl
upward-out (suc k) i j h = ground (arith, upward-out k (i + 1) j)

upward-Distinct : (k i : ℕ) → Distinct (upward k i)
upward-Distinct zero i = tt
upward-Distinct (suc k) i = (upward-out k (i + 1) i (omega arith), upward-Distinct k (i + 1))

length-upward : (k i : ℕ) → length (upward k i) ≡ k
length-upward zero i = refl
length-upward (suc k) i = ap suc (length-upward k (i + 1))

upward-Chain :
    (k i : ℕ) (nodes : Nodes)
    → i + suc k ≡ nr_wp
    → Chain (init_nodes nr_wp 0 nodes) (some i) (upward (suc k) i)
upward-Chain zero i nodes e =
    (refl, ground (arith, init_nodes-at nr_wp 0 nodes i (omega arith) (omega arith)))
upward-Chain (suc k) i nodes e = (refl, rw next (upward-Chain k (i + 1) nodes (omega arith)))
  where
    next : (init_nodes nr_wp 0 nodes i).next ≡ some (i + 1)
    next = ground (arith, init_nodes-at nr_wp 0 nodes i (omega arith) (omega arith))

-- After init_wp_pool no watchpoint is active, and the 32 nodes are free in the order of the table,
-- whatever the table held before.
pub init_wp_pool-IsPool : (nodes : Nodes) → IsPool (init_wp_pool nodes) [] (upward nr_wp 0)
unfolding init_wp_pool
init_wp_pool-IsPool nodes = record {
  active_chain = refl;
  free_chain = upward-Chain 31 0 nodes refl;
  active_distinct = tt;
  free_distinct = upward-Distinct nr_wp 0;
  apart = λ i h. cc;
  active_numbered = λ i h. cc;
  free_numbered = λ i h. (init_nodes-at nr_wp 0 nodes i (omega arith) (has-upward nr_wp 0 i h).1).0;
  total = refl;
}
