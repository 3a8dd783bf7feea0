-- ===== src/Watch/Refine.antt =====
-- The pool against two lists of numbers: the active watchpoints, the newest first, and the free
-- ones.
use rv32i.Base.{
  ℕ, ◌+◌, ◌≡◌, refl, arith, true, false, ◌==◌, if◌then◌else◌, List, [], ◌∷◌, Option, none, some,
  length, ap, sym, ◌∙◌, Bool-cases, inl, inr, ==_iff,
}
use rv32i.Watch.{Nodes, Pool, nr_wp, set_next, new_wp, activate}
use rv32i.Watch.Chain.{has, Distinct, Chain, erase, before, Chain-congr, AreNumbered, ne_of_has}

pub record IsPool (p : Pool) (active free : List ℕ) : Type 0 where
  pub active_chain : Chain p.nodes p.head active
  pub free_chain : Chain p.nodes p.free_ free
  pub active_distinct : Distinct active
  pub free_distinct : Distinct free
  pub apart : (i : ℕ) → has i active ≡ true → has i free ≡ false
  pub active_numbered : AreNumbered p.nodes active
  pub free_numbered : AreNumbered p.nodes free
  pub total : length active + length free ≡ nr_wp

-- The contents of every node but its link.
pub record AreKept (old new : Nodes) : Type 0 where
  pub no : (i : ℕ) → (new i).no ≡ (old i).no
  pub type : (i : ℕ) → (new i).type ≡ (old i).type
  pub str : (i : ℕ) → (new i).str ≡ (old i).str
  pub last_value : (i : ℕ) → (new i).last_value ≡ (old i).last_value

pub kept_refl : (nodes : Nodes) → AreKept nodes nodes
kept_refl nodes = record {
  no = λ i. refl;
  type = λ i. refl;
  str = λ i. refl;
  last_value = λ i. refl;
}

pub kept_set_next :
    {old new : Nodes} (i : ℕ) (q : Option ℕ) → AreKept old new → AreKept old (set_next new i q)
kept_set_next {new = new} i q k = record {
  no = λ j. ground (arith, k.no j);
  type = λ j. ground (arith, k.type j);
  str = λ j. same_str j ∙ k.str j;
  last_value = λ j. ground (arith, k.last_value j);
}
  where
    same_str : (j : ℕ) → (set_next new i q j).str ≡ (new j).str
    same_str j = ground arith

-- What new_wp and free_wp do to the two lists.
pub record Lists : Type 0 where
  pub active : List ℕ
  pub free : List ℕ

abbrev pub lists : List ℕ → List ℕ → Lists
lists a f = record { active = a; free = f }

unfoldable pub take_first : Lists → Option ℕ × Lists
take_first l = elim l.free [ [] ↦ (none, l) | w ∷ ws ↦ (some w, lists (w ∷ l.active) ws) ]

unfoldable pub give_back : ℕ → Lists → Lists
give_back n l = if has n l.active then lists (erase n l.active) (n ∷ l.free) else l

pub new_wp_of_free : (p : Pool) (w : ℕ) → p.free_ ≡ some w → new_wp p ≡ (some w, activate p w)
unfolding new_wp
new_wp_of_free p w e = λ i. elim (e i) [ none ↦ (none, p) | some w ↦ (some w, activate p w) ]

pub new_wp_of_full : (p : Pool) → p.free_ ≡ none → new_wp p ≡ (none, p)
unfolding new_wp
new_wp_of_full p e = λ i. elim (e i) [ none ↦ (none, p) | some w ↦ (some w, activate p w) ]

pub IsPool-activate :
    {p : Pool} {active : List ℕ} (w : ℕ) (ws : List ℕ)
    → IsPool p active (w ∷ ws)
    → IsPool (activate p w) (w ∷ active) ws
IsPool-activate {p} {active} w ws k = record {
  active_chain = (
    refl,
    Chain-congr p.nodes nodes _ active (λ i h. ground (arith, fresh, ne_of_has i w active h fresh))
        (ground (arith, k.active_chain)),
  );
  free_chain =
      Chain-congr p.nodes nodes _ ws (λ i h. ground (arith, ne_of_has i w ws h k.free_distinct.0))
        k.free_chain.1;
  active_distinct = (fresh, k.active_distinct);
  free_distinct = k.free_distinct.1;
  apart = λ i h. elim (Bool-cases (i == w)) [
    | inl e ↦ ap (λ n. has n ws) ((==_iff i w).0 e) ∙ k.free_distinct.0
    | inr e ↦ ground (arith, k.apart i)
  ];
  active_numbered = λ i h. ground (arith, k.active_numbered i, k.free_numbered i);
  free_numbered = λ i h. ground (arith, k.free_numbered i);
  total = omega (arith, k.total);
}
  where
    nodes : Nodes
    nodes = set_next p.nodes w p.head

    fresh : has w active ≡ false
    fresh = elim (Bool-cases (has w active)) [
      | inl old ↦ ground (arith, k.apart w old)
      | inr new ↦ new
    ]

erase-has : (n i : ℕ) (xs : List ℕ) → has i (erase n xs) ≡ true → has i xs ≡ true
erase-has n i [] h = h
erase-has n i (x ∷ xs) h = ground (arith, erase-has n i xs)

erase-out : (n i : ℕ) (xs : List ℕ) → has i xs ≡ false → has i (erase n xs) ≡ false
erase-out n i [] h = h
erase-out n i (x ∷ xs) h = ground (arith, erase-out n i xs)

erase-Distinct : (n : ℕ) (xs : List ℕ) → Distinct xs → Distinct (erase n xs)
erase-Distinct n [] d = tt
erase-Distinct n (x ∷ xs) d = elim (Bool-cases (x == n)) [
  | inl e ↦ rw e d.1
  | inr e ↦ rw e (erase-out n x xs d.0, erase-Distinct n xs d.1)
]

erase-gone : (n : ℕ) (xs : List ℕ) → Distinct xs → has n (erase n xs) ≡ false
erase-gone n [] d = refl
erase-gone n (x ∷ xs) d = elim (Bool-cases (x == n)) [
  | inl e ↦ rw e (ap (λ i. has i xs) (sym ((==_iff x n).0 e)) ∙ d.0)
  | inr e ↦ rw e (ground (arith, erase-gone n xs d.1))
]

length-erase : (n : ℕ) (xs : List ℕ) → has n xs ≡ true → length (erase n xs) + 1 ≡ length xs
length-erase n [] h = cc
length-erase n (x ∷ xs) h = ground (arith, length-erase n xs)

pub before-next :
    (n : ℕ) (nodes : Nodes) (x : ℕ) (xs : List ℕ)
    → Chain nodes (nodes x).next xs
    → (nodes (before n x xs)).next ≡ (if has n xs then some n else none)
before-next n nodes x [] c = c
before-next n nodes x (y ∷ ys) c = elim (Bool-cases (y == n)) [
  | inl e ↦ ground (arith, c.0)
  | inr e ↦ ground (arith, before-next n nodes y ys c.1)
]

-- A node that leaves the active list, wherever it stood, becomes the first free one.
module _ {p : Pool} {active free : List ℕ} (n : ℕ) (k : IsPool p active free)
    (m : has n active ≡ true) where
  pub IsPool-release :
      (nodes : Nodes) (head : Option ℕ)
      → Chain nodes head (erase n active)
      → ((i : ℕ) → (nodes i).no ≡ (p.nodes i).no)
      → (nodes n).next ≡ p.free_
      → ((i : ℕ) → has i free ≡ true → (nodes i).next ≡ (p.nodes i).next)
      → IsPool (record { nodes = nodes; head = head; free_ = some n }) (erase n active) (n ∷ free)
  IsPool-release nodes head chain numbers first rest = record {
    active_chain = chain;
    free_chain = (refl, rw first (Chain-congr p.nodes nodes p.free_ free rest k.free_chain));
    active_distinct = erase-Distinct n active k.active_distinct;
    free_distinct = (k.apart n m, k.free_distinct);
    apart = λ i h. ground (
      arith,
      k.apart i (erase-has n i active h),
      ne_of_has i n (erase n active) h (erase-gone n active k.active_distinct),
    );
    active_numbered = λ i h. numbers i ∙ k.active_numbered i (erase-has n i active h);
    free_numbered = λ i h. numbers i ∙ elim (Bool-cases (i == n)) [
      | inl e ↦ k.active_numbered i (ap (λ j. has j active) ((==_iff i n).0 e) ∙ m)
      | inr e ↦ k.free_numbered i (ground arith)
    ];
    total = omega (arith, k.total, length-erase n active m);
  }
