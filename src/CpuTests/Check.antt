-- ===== src/CpuTests/Check.antt =====
-- check of ysyx-workbench/am-kernels/tests/cpu-tests/include/trap.h, the elements of an array with
-- initialisers, and a for loop whose body leaves the variables alone.
use rv32i.Base.{
  ℕ, suc, zero, ◌+◌, Bool, if◌then◌else◌, List, [], ◌∷◌, Outcome, ok, fail, halted, host_overrun,
  and_then,
}

unfoldable pub check : Bool → Outcome (Unit {0})
check cond = if cond then ok tt else fail (halted 1)

unfoldable pub elem_at : List ℕ → ℕ → Outcome ℕ
elem_at [] i = fail host_overrun
elem_at (x ∷ xs) zero = ok x
elem_at (x ∷ xs) (suc i) = elem_at xs i

-- The body for `rounds` numbers from `i` on.
unfoldable pub for_each : ℕ → ℕ → (ℕ → Outcome (Unit {0})) → Outcome (Unit {0})
for_each zero i body = ok tt
for_each (suc rounds) i body = and_then (body i) λ _. for_each rounds (i + 1) body
