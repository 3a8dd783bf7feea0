-- ===== src/CpuTests/Sort.antt =====
-- ysyx-workbench/am-kernels/tests/cpu-tests/tests/bubble-sort.c: an array of int is a function from indices to
-- 32-bit words.
pub mod Pair
pub mod Order
pub mod Count
use rv32i.Base.{ℕ, zero, suc, ◌+◌, ◌-◌, ◌==◌, if◌then◌else◌, List, [], ◌∷◌, Outcome, ok, and_then}
use rv32i.CpuTests.Check.{check, for_each}
use rv32i.Word.{u32, slt32}
use rv32i.Machine.{update}

-- The body of the inner loop.
unfoldable pub sort_pair : ℕ → (ℕ → ℕ) → ℕ → ℕ
unfolding slt32
sort_pair i a =
    if slt32 (a (i + 1)) (a i)
    then (let t = a i in update (update a i (a (i + 1))) (i + 1) t)
    else a

-- The inner loop, from `i` on.
unfoldable pub bubble_pass : ℕ → ℕ → (ℕ → ℕ) → ℕ → ℕ
unfolding sort_pair
bubble_pass zero i a = a
bubble_pass (suc rounds) i a = bubble_pass rounds (i + 1) (sort_pair i a)

-- The outer loop over `n` elements, from `j` on.
unfoldable pub bubble_loop : ℕ → ℕ → ℕ → (ℕ → ℕ) → ℕ → ℕ
unfolding bubble_pass
bubble_loop zero n j a = a
bubble_loop (suc rounds) n j a = bubble_loop rounds n (j + 1) (bubble_pass (n - 1 - j) 0 a)

unfoldable pub bubble_sort : ℕ → (ℕ → ℕ) → ℕ → ℕ
unfolding bubble_loop
bubble_sort n a = bubble_loop n n 0 a

-- The array of the program, and the checks of main after each of its two sorts.
abbrev bubble_data : List ℕ
bubble_data =
    2 ∷ 12 ∷ 14 ∷ 6 ∷ 13 ∷ 15 ∷ 16 ∷ 10 ∷ 0 ∷ 18 ∷ 11 ∷ 19 ∷ 9 ∷ 1 ∷ 7 ∷ 5 ∷ 4 ∷ 3 ∷ 8 ∷ 17 ∷ []

abbrev pub from_list : List ℕ → ℕ → ℕ
from_list [] i = 0
from_list (x ∷ xs) zero = x
from_list (x ∷ xs) (suc i) = from_list xs i

unfoldable pub bubble_main : Outcome ℕ
unfolding bubble_sort check for_each
bubble_main =
    let a = bubble_sort 20 (from_list bubble_data) in
    let b = bubble_sort 20 a in
    and_then (for_each 20 0 λ i. check (a i == i))
      λ _. and_then (for_each 20 0 λ i. check (b i == i)) λ _. ok 0
