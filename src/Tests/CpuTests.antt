-- ===== src/Tests/CpuTests.antt =====
-- The programs of cpu-tests pass their own checks, and the theorems about them at small inputs.
use rv32i.Base.{ℕ, ◌%◌, ◌^◌, ◌≡◌, ◌≤◌, ◌<◌, ◌↔◌, refl, arith, true, [], ◌∷◌, ok}
use rv32i.CpuTests.Functions.{
  max_main, min3_main, add_main, if_else_main, switch_main, leap_year_main, to_lower_case_main,
}
use rv32i.CpuTests.Loops.{sum_main, fact_main, fib_main, prime_main, wanshu_main, shuixianhua_main}
use rv32i.CpuTests.Sort.{bubble_sort, bubble_main, from_list}
use rv32i.CpuTests.Sort.Pair.{key}
use rv32i.CpuTests.Sort.Count.{count, bubble_sort-IsSorted}
use rv32i.CpuTests.Primes.{goldbach, goldbach_main}
use rv32i.CpuTests.Primes.Laws.{IsSum, goldbach-IsSum}
use rv32i.CpuTests.Pascal.{pascal, pascal_main}
use rv32i.CpuTests.Pascal.Binomial.{binomial, pascal-binomial}

functions_pass :
    (max_main ≡ ok 0)
    × (min3_main ≡ ok 0)
    × (add_main ≡ ok 0)
    × (if_else_main ≡ ok 0)
    × (switch_main ≡ ok 0)
    × (leap_year_main ≡ ok 0)
    × (to_lower_case_main ≡ ok 0)
unfolding max_main min3_main add_main if_else_main switch_main leap_year_main to_lower_case_main
functions_pass = (refl, refl, refl, refl, refl, refl, refl)

loops_pass :
    (sum_main ≡ ok 0)
    × (fact_main ≡ ok 0)
    × (fib_main ≡ ok 0)
    × (prime_main ≡ ok 0)
    × (wanshu_main ≡ ok 0)
    × (shuixianhua_main ≡ ok 0)
unfolding sum_main fact_main fib_main prime_main wanshu_main shuixianhua_main
loops_pass = (refl, refl, refl, refl, refl, refl)

others_pass : (goldbach_main ≡ ok 0) × (pascal_main ≡ ok 0)
unfolding goldbach_main pascal_main
others_pass = (refl, refl)

bubble_sort_passes : bubble_main ≡ ok 0
unfolding bubble_main
bubble_sort_passes = refl

bubble_sort-IsSorted_example :
    ((p q : ℕ)
      → p ≤ q
      → q < 3
      → key (bubble_sort 3 (from_list (4 ∷ 0xffffffff ∷ 2 ∷ [])) p)
        ≤ key (bubble_sort 3 (from_list (4 ∷ 0xffffffff ∷ 2 ∷ [])) q))
    × ((v : ℕ)
        → count 3 v (bubble_sort 3 (from_list (4 ∷ 0xffffffff ∷ 2 ∷ [])))
          ≡ count 3 v (from_list (4 ∷ 0xffffffff ∷ 2 ∷ [])))
bubble_sort-IsSorted_example = bubble_sort-IsSorted 3 (from_list (4 ∷ 0xffffffff ∷ 2 ∷ []))

goldbach-IsSum_example : (goldbach 10 ≡ true) ↔ IsSum 10
goldbach-IsSum_example = goldbach-IsSum 10

pascal-binomial_example : pascal 6 (λ i. 0) 2 ≡ binomial 5 2 % 2 ^ 32
pascal-binomial_example = pascal-binomial 6 (λ i. 0) 2 (omega arith) (omega arith)
