-- ===== src/CpuTests/Primes.antt =====
-- ysyx-workbench/am-kernels/tests/cpu-tests/tests/goldbach.c, for numbers that are not negative.
pub mod Laws
use rv32i.Base.{
  ℕ, zero, suc, ◌+◌, ◌-◌, ◌%◌, Bool, true, false, ◌==◌, ◌&&◌, ltb, if◌then◌else◌, Outcome, ok,
  and_then,
}
use rv32i.CpuTests.Check.{check}

-- The loop of is_prime, from `i` on: whether no divisor is found.
unfoldable pub no_divisor : ℕ → ℕ → ℕ → Bool
no_divisor zero n i = true
no_divisor (suc rounds) n i =
    let rest = no_divisor rounds n (i + 1) in
    if ltb i n then (if n % i == 0 then false else rest) else true

unfoldable pub is_prime : ℕ → Bool
unfolding no_divisor
is_prime n = if ltb n 2 then false else no_divisor n n 2

-- The loop of goldbach, from `i` on.
unfoldable pub find_sum : ℕ → ℕ → ℕ → Bool
unfolding is_prime
find_sum zero n i = false
find_sum (suc rounds) n i =
    let rest = find_sum rounds n (i + 1) in
    if ltb i n then (if is_prime i && is_prime (n - i) then true else rest) else false

unfoldable pub goldbach : ℕ → Bool
unfolding find_sum
goldbach n = find_sum n n 2

-- main: the even numbers from `n` on.
unfoldable pub goldbach_loop : ℕ → ℕ → Outcome (Unit {0})
unfolding goldbach check
goldbach_loop zero n = ok tt
goldbach_loop (suc rounds) n = and_then (check (goldbach n)) λ _. goldbach_loop rounds (n + 2)

unfoldable pub goldbach_main : Outcome ℕ
unfolding goldbach_loop
goldbach_main = and_then (goldbach_loop 14 4) λ _. ok 0
