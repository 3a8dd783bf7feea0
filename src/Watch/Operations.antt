-- ===== src/Watch/Operations.antt =====
-- new_wp, free_wp and init_wp_pool refine the operations on the two lists.
use rv32i.Base.{
  ℕ, ◌≡◌, refl, arith, true, false, ◌==◌, if◌then◌else◌, List, [], ◌∷◌, none, some, ap, ◌∙◌,
  Outcome, ok, Bool-cases, inl, inr, ==_iff, ==_self, and_then,
}
use rv32i.Watch.{Nodes, Pool, nr_wp, set_next, new_wp, find_pre, release, detach, free_wp}
use rv32i.Watch.Chain.{
  has, erase, before, before-has, Chain-congr, find_pre-before, detached, Chain-erase, ne_of_has,
}
use rv32i.Watch.Refine.{
  IsPool, AreKept, kept_refl, kept_set_next, lists, take_first, give_back, IsPool-activate,
  new_wp_of_free, new_wp_of_full, before-next, IsPool-release,
}

-- new_wp takes the first free node, if there is one, and puts it in front of the active ones; with
-- none left it returns NULL. No node's number, text or value changes.
pub new_wp-take_first :
    (p : Pool) (active free : List ℕ)
    → IsPool p active free
    → let (w, l) = take_first (lists active free) in
      ((new_wp p).0 ≡ w) × IsPool (new_wp p).1 l.active l.free × AreKept p.nodes (new_wp p).1.nodes
unfolding take_first
new_wp-take_first p active [] k = rw (new_wp_of_full p k.free_chain) (refl, k, kept_refl _)
new_wp-take_first p active (w ∷ ws) k =
    rw (new_wp_of_free p w k.free_chain.0)
      (refl, IsPool-activate w ws k, kept_set_next w _ (kept_refl _))

detach_of_some :
    (p : Pool) (pre w : ℕ)
    → (p.nodes pre).next ≡ some w
    → detach p pre ≡ release (set_next p.nodes pre (p.nodes w).next) p.head p.free_ w
unfolding detach
detach_of_some p pre w e = λ i. elim (e i) [
  | none ↦ p
  | some w ↦ release (set_next p.nodes pre (p.nodes w).next) p.head p.free_ w
]

detach_of_none : (p : Pool) (pre : ℕ) → (p.nodes pre).next ≡ none → detach p pre ≡ p
unfolding detach
detach_of_none p pre e = λ i. elim (e i) [
  | none ↦ p
  | some w ↦ release (set_next p.nodes pre (p.nodes w).next) p.head p.free_ w
]

abbrev from_head : ℕ → Pool → ℕ → Outcome Pool
from_head n p h =
    if n == (p.nodes h).no
    then ok (release p.nodes (p.nodes h).next p.free_ h)
    else and_then (find_pre nr_wp n p.nodes h) λ wp_pre. ok (detach p wp_pre)

free_wp_of_head : (n : ℕ) (p : Pool) (h : ℕ) → p.head ≡ some h → free_wp n p ≡ from_head n p h
unfolding free_wp
free_wp_of_head n p h e = λ i. elim (e i) [ none ↦ ok p | some h ↦ from_head n p h ]

free_wp_of_none : (n : ℕ) (p : Pool) → p.head ≡ none → free_wp n p ≡ ok p
unfolding free_wp
free_wp_of_none n p e = λ i. elim (e i) [ none ↦ ok p | some h ↦ from_head n p h ]

-- What free_wp is to do.
abbrev Frees : ℕ → Pool → List ℕ → List ℕ → Type 0
Frees n p active free =
    (p' : Pool) × (free_wp n p ≡ ok p')
    × (let l = give_back n (lists active free) in IsPool p' l.active l.free)
    × AreKept p.nodes p'.nodes

module _ {p : Pool} {rest free : List ℕ} (n h : ℕ) (k : IsPool p (h ∷ rest) free) where
  numbered : (p.nodes h).no ≡ h
  numbered = k.active_numbered h (ground arith)

  -- The number of the head.
  free_wp_head : n ≡ h → Frees n p (h ∷ rest) free
  unfolding give_back
  free_wp_head e =
      rw (e, ==_self h)
        (
          p',
          free_wp_of_head h p h k.active_chain.0 ∙ rw (numbered, ==_self h),
          rw (==_self h) at released,
          kept_set_next h _ (kept_refl _),
        )
    where
      p' : Pool
      p' = release p.nodes (p.nodes h).next p.free_ h

      released : IsPool p' (erase h (h ∷ rest)) (h ∷ free)
      released =
          IsPool-release h k (ground arith) (set_next p.nodes h p.free_) (p.nodes h).next
            (rw (==_self h) (
              Chain-congr p.nodes (set_next p.nodes h p.free_) _ rest
                (λ i m. ground (arith, ne_of_has i h rest m k.active_distinct.0)) k.active_chain.1))
            (λ i. ground arith) (ground arith)
            (λ i m. ground (arith, ne_of_has i h free m (k.apart h (ground arith))))

  module _ (e : (n == h) ≡ false) where
    found : free_wp n p ≡ ok (detach p (before n h rest))
    found =
        free_wp_of_head n p h k.active_chain.0
        ∙ rw (
          numbered,
          e,
          find_pre-before nr_wp n p.nodes h rest (omega (arith, k.total))
              (λ i m. k.active_numbered i (ground arith)) k.active_chain.1,
        )

    free_wp_behind : has n rest ≡ true → Frees n p (h ∷ rest) free
    unfolding give_back
    free_wp_behind m =
        rw (e, m)
          (
            p',
            found
                ∙ ap ok (
                    detach_of_some p pre n
                      (rw m at (before-next n p.nodes h rest k.active_chain.1))),
            released,
            kept_set_next n _ (kept_set_next pre _ (kept_refl _)),
          )
      where
        pre : ℕ
        pre = before n h rest

        nodes : Nodes
        nodes = detached p.nodes pre n p.free_

        p' : Pool
        p' = release (set_next p.nodes pre (p.nodes n).next) p.head p.free_ n

        test : (h == n) ≡ false
        test = ground arith

        active : has n (h ∷ rest) ≡ true
        active = ground arith

        released : IsPool p' (erase n (h ∷ rest)) (n ∷ free)
        released =
            IsPool-release n k active nodes p.head
              (rw test (
                k.active_chain.0,
                Chain-erase n p.nodes p.free_ h rest k.active_distinct m k.active_chain.1,
              ))
              (λ i. ground arith) (ground arith)
              (λ i f. ground (
                arith,
                ne_of_has i n free f (k.apart n active),
                ne_of_has i pre free f (k.apart pre (before-has n h rest)),
              ))

    free_wp_absent : has n rest ≡ false → Frees n p (h ∷ rest) free
    unfolding give_back
    free_wp_absent m =
        rw (e, m)
          (
            p,
            found
                ∙ ap ok
                    (detach_of_none p _ (rw m at (before-next n p.nodes h rest k.active_chain.1))),
            k,
            kept_refl _,
          )

-- free_wp ends without running out of fuel; it moves the watchpoint with number `n` from the active
-- list to the front of the free ones, leaves both lists if `n` is not active, and changes no node's
-- number, text or value.
pub free_wp-give_back :
    (n : ℕ) (p : Pool) (active free : List ℕ)
    → IsPool p active free
    → (p' : Pool) × (free_wp n p ≡ ok p')
      × (let l = give_back n (lists active free) in IsPool p' l.active l.free)
      × AreKept p.nodes p'.nodes
unfolding give_back
free_wp-give_back n p [] free k = (p, free_wp_of_none n p k.active_chain, k, kept_refl _)
free_wp-give_back n p (h ∷ rest) free k = elim (Bool-cases (n == h)) [
  | inl e ↦ free_wp_head n h k ((==_iff n h).0 e)
  | inr e ↦ elim (Bool-cases (has n rest)) [
    | inl m ↦ free_wp_behind n h k e m
    | inr m ↦ free_wp_absent n h k e m
  ]
]
