-- ===== src/Tests/Watch.antt =====
-- The watchpoint pool at concrete lists.
use rv32i.Base.{ℕ, ◌≡◌, refl, Bool, true, List, [], ◌∷◌, none, Outcome, ok}
use rv32i.Watch.{Nodes, Pool, nr_wp, init_wp_pool, new_wp, free_wp, check_wp}
use rv32i.Watch.Refine.{IsPool, AreKept, lists, take_first, give_back}
use rv32i.Watch.Init.{upward, init_wp_pool-IsPool}
use rv32i.Watch.Operations.{new_wp-take_first, free_wp-give_back}
use rv32i.Watch.Check.{any_changed, Checked, check_wp-Checked}

abbrev empty : Nodes
empty i = record { no = 0; next = none; type = 0; str = []; last_value = 0 }

new_wp-take_first_example :
    let (w, l) = take_first (lists [] (upward nr_wp 0)) in
    ((new_wp (init_wp_pool empty)).0 ≡ w)
    × IsPool (new_wp (init_wp_pool empty)).1 l.active l.free
    × AreKept (init_wp_pool empty).nodes (new_wp (init_wp_pool empty)).1.nodes
new_wp-take_first_example =
    new_wp-take_first (init_wp_pool empty) [] (upward nr_wp 0) (init_wp_pool-IsPool empty)

abbrev one : Pool
one = (new_wp (init_wp_pool empty)).1

one-IsPool : IsPool one (0 ∷ []) (upward 31 1)
unfolding take_first
one-IsPool =
    (new_wp-take_first (init_wp_pool empty) [] (upward nr_wp 0) (init_wp_pool-IsPool empty)).1

abbrev two : Pool
two = (new_wp one).1

two-IsPool : IsPool two (1 ∷ 0 ∷ []) (upward 30 2)
unfolding take_first
two-IsPool = (new_wp-take_first one (0 ∷ []) (upward 31 1) one-IsPool).1

free_wp-give_back_example :
    (p' : Pool) × (free_wp 0 two ≡ ok p')
    × (let l = give_back 0 (lists (1 ∷ 0 ∷ []) (upward 30 2)) in IsPool p' l.active l.free)
    × AreKept two.nodes p'.nodes
free_wp-give_back_example = free_wp-give_back 0 two (1 ∷ 0 ∷ []) (upward 30 2) two-IsPool

-- An evaluator that gives every text the value 7.
abbrev always_seven : List ℕ → ℕ → Outcome (ℕ × Bool × ℕ)
always_seven e s = ok (7, true, s)

check_wp-Checked_example :
    (p' : Pool) × (s' : ℕ) × (check_wp always_seven two 0
      ≡ ok (any_changed (λ _. 7) two.nodes (1 ∷ 0 ∷ []), p', s'))
    × IsPool p' (1 ∷ 0 ∷ []) (upward 30 2)
    × Checked (λ _. 7) (1 ∷ 0 ∷ []) two.nodes p'.nodes
check_wp-Checked_example =
    check_wp-Checked always_seven (λ _. 7) two (1 ∷ 0 ∷ []) (upward 30 2) 0 two-IsPool
      (λ i s m. (s, refl))
