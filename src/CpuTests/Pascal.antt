-- ===== src/CpuTests/Pascal.antt =====
-- ysyx-workbench/am-kernels/tests/cpu-tests/tests/pascal.c: the rows of Pascal's triangle, in place.
pub mod Binomial
use rv32i.Base.{ℕ, suc, zero, ◌+◌, ◌-◌, ◌==◌, List, [], ◌∷◌, Outcome, ok, and_then, if◌then◌else◌}
use rv32i.Word.{add32}
use rv32i.Machine.{update}
use rv32i.CpuTests.Check.{check, elem_at, for_each}

-- The inner loop, from `j` on.
unfoldable pub pascal_row : ℕ → ℕ → ℕ → (ℕ → ℕ) → ℕ → ℕ
unfolding add32
pascal_row zero j t₀ a = a
pascal_row (suc rounds) j t₀ a =
    let t₁ = a j in pascal_row rounds (j + 1) t₁ (update a j (add32 t₀ t₁))

-- The outer loop, from `i` on.
unfoldable pub pascal_loop : ℕ → ℕ → (ℕ → ℕ) → ℕ → ℕ
unfolding pascal_row
pascal_loop zero i a = a
pascal_loop (suc rounds) i a = pascal_loop rounds (i + 1) (update (pascal_row (i - 1) 1 1 a) i 1)

-- The array `a` behind the loops of main, for N rows.
unfoldable pub pascal : ℕ → (ℕ → ℕ) → ℕ → ℕ
unfolding pascal_loop
pascal n a = pascal_loop (n - 2) 2 (update (update a 1 1) 0 1)

abbrev pascal_ans : List ℕ
pascal_ans =
    1 ∷ 30 ∷ 435 ∷ 4060 ∷ 27405 ∷ 142506 ∷ 593775 ∷ 2035800 ∷ 5852925 ∷ 14307150 ∷ 30045015
    ∷ 54627300 ∷ 86493225 ∷ 119759850 ∷ 145422675 ∷ 155117520 ∷ 145422675 ∷ 119759850 ∷ 86493225
    ∷ 54627300 ∷ 30045015 ∷ 14307150 ∷ 5852925 ∷ 2035800 ∷ 593775 ∷ 142506 ∷ 27405 ∷ 4060 ∷ 435 ∷ 30
    ∷ 1 ∷ []

unfoldable pub pascal_main : Outcome ℕ
unfolding pascal check elem_at for_each
pascal_main =
    let a = pascal 31 (λ i. 0) in
    and_then (for_each 31 0 λ j. and_then (elem_at pascal_ans j) λ z. check (a j == z)) λ _. ok 0
