-- ===== src/CpuTests/Loops.antt =====
-- The programs of ysyx-workbench/am-kernels/tests/cpu-tests/tests that are a loop over numbers: sum,
-- fact, fib, prime, wanshu and shuixianhua. Each main returns 0, or stops at a check.
use rv32i.Base.{
  ℕ, suc, zero, ◌+◌, ◌-◌, ◌/◌, ◌%◌, true, false, ◌==◌, ltb, leb, if◌then◌else◌, List, [], ◌∷◌,
  Outcome, ok, and_then,
}
use rv32i.Word.{add32, mul32}
use rv32i.Machine.{update}
use rv32i.CpuTests.Check.{check, elem_at, for_each}

-- sum.c: the loop of main, from `i` on.
unfoldable pub sum_loop : ℕ → ℕ → ℕ → ℕ
unfolding add32
sum_loop zero i sum = sum
sum_loop (suc rounds) i sum =
    let rest = sum_loop rounds (i + 1) (add32 sum i) in if leb i 100 then rest else sum

unfoldable pub sum_main : Outcome ℕ
unfolding sum_loop check
sum_main = and_then (check (sum_loop 101 1 0 == 5050)) λ _. ok 0

-- fact.c, for numbers that are not negative.
unfoldable pub fact : ℕ → ℕ
unfolding mul32
fact zero = 1
fact (suc n) = if n == 0 then 1 else mul32 (fact n) (suc n)

abbrev fact_ans : List ℕ
fact_ans =
    1 ∷ 1 ∷ 2 ∷ 6 ∷ 24 ∷ 120 ∷ 720 ∷ 5040 ∷ 40320 ∷ 362880 ∷ 3628800 ∷ 39916800 ∷ 479001600 ∷ []

unfoldable pub fact_main : Outcome ℕ
unfolding fact check elem_at for_each
fact_main =
    and_then (for_each 13 0 λ i. and_then (elem_at fact_ans i) λ z. check (fact i == z)) λ _. ok 0

-- fib.c: the loop of main over the array, from `i` on.
abbrev fib_ans : List ℕ
fib_ans =
    1 ∷ 1 ∷ 2 ∷ 3 ∷ 5 ∷ 8 ∷ 13 ∷ 21 ∷ 34 ∷ 55 ∷ 89 ∷ 144 ∷ 233 ∷ 377 ∷ 610 ∷ 987 ∷ 1597 ∷ 2584
    ∷ 4181 ∷ 6765 ∷ 10946 ∷ 17711 ∷ 28657 ∷ 46368 ∷ 75025 ∷ 121393 ∷ 196418 ∷ 317811 ∷ 514229
    ∷ 832040 ∷ 1346269 ∷ 2178309 ∷ 3524578 ∷ 5702887 ∷ 9227465 ∷ 14930352 ∷ 24157817 ∷ 39088169
    ∷ 63245986 ∷ 102334155 ∷ []

unfoldable pub fib_loop : ℕ → ℕ → (ℕ → ℕ) → Outcome (Unit {0})
unfolding add32 check elem_at
fib_loop zero i fib = ok tt
fib_loop (suc rounds) i fib =
    let next = update fib i (add32 (fib (i - 1)) (fib (i - 2))) in
    and_then (elem_at fib_ans i)
      λ z. and_then (check (next i == z)) λ _. fib_loop rounds (i + 1) next

unfoldable pub fib_main : Outcome ℕ
unfolding fib_loop
fib_main = and_then (fib_loop 38 2 λ i. if leb i 1 then 1 else 0) λ _. ok 0

-- prime.c: the inner loop, which leaves the first divisor, or `m`.
unfoldable pub first_divisor : ℕ → ℕ → ℕ → ℕ
first_divisor zero m i = i
first_divisor (suc rounds) m i =
    let rest = first_divisor rounds m (i + 1) in
    if ltb i m then (if m % i == 0 then i else rest) else i

abbrev prime_ans : List ℕ
prime_ans = 101 ∷ 103 ∷ 107 ∷ 109 ∷ 113 ∷ 127 ∷ 131 ∷ 137 ∷ 139 ∷ 149 ∷ []

-- The outer loop: `n` primes are found before `m`.
unfoldable pub prime_loop : ℕ → ℕ → ℕ → Outcome ℕ
unfolding first_divisor check elem_at
prime_loop zero m n = ok n
prime_loop (suc rounds) m n =
    let i = first_divisor m m 2 in
    elim (i == m) [
      | true ↦
          and_then (elem_at prime_ans n)
            (λ z. and_then (check (i == z)) λ _. prime_loop rounds (m + 2) (n + 1))
      | false ↦ prime_loop rounds (m + 2) n
    ]

unfoldable pub prime_main : Outcome ℕ
unfolding prime_loop check
prime_main = and_then (prime_loop 25 101 0) λ n. and_then (check (n == 10)) λ _. ok 0

-- wanshu.c: the inner loop, from `i` on.
unfoldable pub divisor_sum : ℕ → ℕ → ℕ → ℕ → ℕ
unfolding add32
divisor_sum zero n i sum = sum
divisor_sum (suc rounds) n i sum =
    let rest = divisor_sum rounds n (i + 1) (if n % i == 0 then add32 sum i else sum) in
    if ltb i n then rest else sum

abbrev wanshu_ans : List ℕ
wanshu_ans = 6 ∷ 28 ∷ []

unfoldable pub wanshu_loop : ℕ → ℕ → ℕ → Outcome ℕ
unfolding divisor_sum check elem_at
wanshu_loop zero n k = ok k
wanshu_loop (suc rounds) n k = elim (divisor_sum n n 1 0 == n) [
  | true ↦
      and_then (elem_at wanshu_ans k)
        (λ z. and_then (check (n == z)) λ _. wanshu_loop rounds (n + 1) (k + 1))
  | false ↦ wanshu_loop rounds (n + 1) k
]

unfoldable pub wanshu_main : Outcome ℕ
unfolding wanshu_loop check
wanshu_main = and_then (wanshu_loop 29 1 0) λ k. and_then (check (k == 2)) λ _. ok 0

-- shuixianhua.c
unfoldable pub cube : ℕ → ℕ
unfolding mul32
cube n = mul32 (mul32 n n) n

abbrev shuixianhua_ans : List ℕ
shuixianhua_ans = 153 ∷ 370 ∷ 371 ∷ 407 ∷ []

unfoldable pub shuixianhua_loop : ℕ → ℕ → ℕ → Outcome ℕ
unfolding cube add32 check elem_at
shuixianhua_loop zero n k = ok k
shuixianhua_loop (suc rounds) n k =
    elim (n == add32 (add32 (cube (n / 100)) (cube (n / 10 % 10))) (cube (n % 10))) [
      | true ↦
          and_then (elem_at shuixianhua_ans k)
            (λ z. and_then (check (n == z)) λ _. shuixianhua_loop rounds (n + 1) (k + 1))
      | false ↦ shuixianhua_loop rounds (n + 1) k
    ]

unfoldable pub shuixianhua_main : Outcome ℕ
unfolding shuixianhua_loop check
shuixianhua_main = and_then (shuixianhua_loop 400 100 0) λ k. and_then (check (k == 4)) λ _. ok 0
