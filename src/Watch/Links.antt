-- ===== src/Watch/Links.antt =====
-- check_wp leaves the lists of the pool alone, whatever the evaluator does.
use rv32i.Base.{
  ℕ, zero, suc, ◌+◌, ◌≡◌, refl, arith, Bool, true, false, ◌==◌, if◌then◌else◌, List, Option, none,
  some, ◌∙◌, Outcome, ok, fail, assertion, OnOk, on_ok, on_ok-eq,
}
use rv32i.Machine.{update}
use rv32i.Watch.{Nodes, Pool, nr_wp, check_loop, check_wp}
use rv32i.Watch.Chain.{Chain-congr}
use rv32i.Watch.Refine.{IsPool}

-- The same links and numbers.
pub record SameLinks (old new : Nodes) : Type 0 where
  pub next : (i : ℕ) → (new i).next ≡ (old i).next
  pub no : (i : ℕ) → (new i).no ≡ (old i).no

pub same_refl : (nodes : Nodes) → SameLinks nodes nodes
same_refl nodes = record { next = λ i. refl; no = λ i. refl }

same_trans : {a b c : Nodes} → SameLinks a b → SameLinks b c → SameLinks a c
same_trans h k = record { next = λ i. k.next i ∙ h.next i; no = λ i. k.no i ∙ h.no i }

pub same_last_value :
    (nodes : Nodes) (w v : ℕ)
    → SameLinks nodes (update nodes w (record (nodes w) { last_value = v }))
same_last_value nodes w v = record { next = λ i. ground arith; no = λ i. ground arith }

pub same_str :
    (nodes : Nodes) (w : ℕ) (str : List ℕ)
    → SameLinks nodes (update nodes w (record (nodes w) { str = str }))
same_str nodes w str = record { next = λ i. ground arith; no = λ i. ground arith }

-- A pool with the same links and numbers has the same lists.
pub IsPool-congr :
    {p : Pool} {active free : List ℕ} {nodes : Nodes}
    → SameLinks p.nodes nodes
    → IsPool p active free
    → IsPool (record p { nodes = nodes }) active free
IsPool-congr {p} {active} {free} {nodes} s k = record {
  active_chain = Chain-congr p.nodes nodes p.head active (λ i _. s.next i) k.active_chain;
  free_chain = Chain-congr p.nodes nodes p.free_ free (λ i _. s.next i) k.free_chain;
  active_distinct = k.active_distinct;
  free_distinct = k.free_distinct;
  apart = k.apart;
  active_numbered = λ i m. s.no i ∙ k.active_numbered i m;
  free_numbered = λ i m. s.no i ∙ k.free_numbered i m;
  total = k.total;
}

module _ {S : Type 0} (expr : List ℕ → S → Outcome (ℕ × Bool × S)) where
  abbrev Keeps : Nodes → Outcome (Bool × Nodes × S) → Type 0
  Keeps nodes = OnOk λ r. SameLinks nodes r.1

  behind_update :
      (nodes : Nodes) (w v : ℕ) (o : Outcome (Bool × Nodes × S))
      → Keeps (update nodes w (record (nodes w) { last_value = v })) o
      → Keeps nodes o
  behind_update nodes w v (ok r) h = same_trans (same_last_value nodes w v) h
  behind_update nodes w v (fail e) h = tt

  chosen :
      (nodes : Nodes) (success same : Bool) (kept changed : Outcome (Bool × Nodes × S))
      → Keeps nodes kept
      → Keeps nodes changed
      → Keeps nodes (if success then (if same then kept else changed) else fail assertion)
  chosen nodes true true kept changed h g = h
  chosen nodes true false kept changed h g = g
  chosen nodes false same kept changed h g = tt

  check_loop-SameLinks :
      (fuel : ℕ) (nodes : Nodes) (wp : Option ℕ) (t : Bool) (s : S)
      → Keeps nodes (check_loop expr fuel nodes wp t s)
  unfolding check_loop
  check_loop-SameLinks zero nodes wp t s = tt
  check_loop-SameLinks (suc fuel) nodes none t s = same_refl nodes
  check_loop-SameLinks (suc fuel) nodes (some w) t s =
      on_ok (λ r. SameLinks nodes r.1) (expr (nodes w).str s) _
        λ (v, success, s') e.
          chosen nodes success (v == (nodes w).last_value) _ _
            (check_loop-SameLinks fuel nodes (nodes w).next t s')
            (behind_update nodes w v _ (check_loop-SameLinks fuel _ (nodes w).next true s'))

  -- The lists of the pool are the same behind check_wp.
  pub check_wp-IsPool :
      (p : Pool) (s : S) {active free : List ℕ}
      → IsPool p active free
      → OnOk (λ r. IsPool r.1 active free) (check_wp expr p s)
  unfolding check_wp
  check_wp-IsPool p s {active} {free} k =
      on_ok (λ r. IsPool r.1 active free) (check_loop expr (nr_wp + 1) p.nodes p.head false s) _
        λ (t, new, s') e.
          IsPool-congr
            (on_ok-eq (λ r. SameLinks p.nodes r.1)
              (check_loop-SameLinks (nr_wp + 1) p.nodes p.head false s) e)
            k
