-- ===== src/Cpu/Loop.antt =====
-- execute and cpu_exec of ysyx-workbench/nemu/src/cpu/cpu-exec.c against a relation on machines, and
-- what every run keeps.
use rv32i.Base.{
  if◌then◌else◌, ltb, ℕ, suc, ◌+◌, ◌%◌, ◌<◌, ◌≡◌, refl, arith, Bool, true, false, if◌then◌else◌, ap,
  ◌∙◌, none, Outcome, ok, and_then,
}
use rv32i.Word.{u64}
use rv32i.Machine.{running, Machine, RunState, stop, is_running}
use rv32i.Watch.{Pool}
use rv32i.Watch.Check.{check_wp_of_none}
use rv32i.Expr.Eval.{Libc, ExprState, expr}
use rv32i.Cpu.{
  cpu_exec, has_ended, settle, System, with_state, exec_once, trace_and_difftest, round, execute,
}

abbrev pub state_of : Machine → RunState
state_of m = m.nemu_state.state

-- `n` instructions at most take the machine `m` to `m'` in `k` steps: all `n` of them, or fewer
-- where one ends the state NEMU_RUNNING.
pub data Steps : ℕ → ℕ → Machine → Machine → Type 0 where
  done : {m : Machine} → Steps 0 0 m m
  last :
      {n : ℕ} {m m₁ : Machine}
      → exec_once m.pc m ≡ ok m₁
      → is_running (state_of m₁) ≡ false
      → Steps (suc n) 1 m m₁
  next :
      {n k : ℕ} {m m₁ m₂ : Machine}
      → exec_once m.pc m ≡ ok m₁
      → is_running (state_of m₁) ≡ true
      → Steps n k m₁ m₂
      → Steps (suc n) (suc k) m m₂

-- The system behind `k` steps.
abbrev pub after : System → ℕ → Machine → System
after y k m = record y { machine = m; g_nr_guest_inst = (y.g_nr_guest_inst + k) % u64 }

module _ (fuel : ℕ) (libc : Libc) where
  -- What trace_and_difftest does with the result of check_wp.
  abbrev traced : System → Bool × Pool × ExprState → Outcome System
  traced y (triggered, pool, es) = ok (record y {
    machine = if triggered then with_state stop y.machine else y.machine;
    pool = pool;
    expr_state = es;
  })

  check_nothing : (y : System) → y.pool.head ≡ none → trace_and_difftest fuel libc y ≡ ok y
  unfolding trace_and_difftest
  check_nothing y e =
      ap (λ o. and_then o (traced y))
        (check_wp_of_none (λ t. expr fuel libc y.machine t) y.pool y.expr_state e)

  round_of_step :
      (y : System) {m : Machine}
      → y.pool.head ≡ none
      → exec_once y.machine.pc y.machine ≡ ok m
      → round fuel libc y ≡ ok (after y 1 m)
  unfolding round
  round_of_step y {m} e step =
      ap (λ o. and_then o λ m. trace_and_difftest fuel libc (after y 1 m)) step
      ∙ check_nothing (after y 1 m) e

  -- The rest of the loop, behind a round.
  abbrev continued : ℕ → System → Outcome System
  continued n y = elim (is_running (state_of y.machine)) [
    | true ↦ execute fuel libc n y
    | false ↦ ok y
  ]

  continued-eq :
      (n : ℕ) (y : System) {b : Bool}
      → is_running (state_of y.machine) ≡ b
      → continued n y ≡ elim b [ true ↦ execute fuel libc n y | false ↦ ok y ]
  continued-eq n y e = λ i. elim (e i) [ true ↦ execute fuel libc n y | false ↦ ok y ]

  execute-suc :
      (n : ℕ) (y : System) {m : Machine}
      → y.pool.head ≡ none
      → exec_once y.machine.pc y.machine ≡ ok m
      → execute fuel libc (suc n) y ≡ continued n (after y 1 m)
  unfolding execute
  execute-suc n y e step = ap (λ o. and_then o (continued n)) (round_of_step y e step)

  -- The counter of `k` steps behind one.
  counted : (c k : ℕ) → ((c + 1) % u64 + k) % u64 ≡ (c + suc k) % u64
  counted c k = omega arith

  execute-Steps :
      {n k : ℕ} {m m' : Machine} (y : System)
      → y.pool.head ≡ none
      → y.g_nr_guest_inst < u64
      → y.machine ≡ m
      → Steps n k m m'
      → execute fuel libc n y ≡ ok (after y k m')
  unfolding execute
  execute-Steps {m = m} y e small at done =
      ap ok (λ i. record y { machine = at i; g_nr_guest_inst = same i })
    where
      same : y.g_nr_guest_inst ≡ (y.g_nr_guest_inst + 0) % u64
      same = omega arith
  execute-Steps {n = suc n} {m' = m'} y e small at (last run over) =
      execute-suc n y e (ap (λ m. exec_once m.pc m) at ∙ run) ∙ continued-eq n (after y 1 m') over
  execute-Steps {n = suc n} {k = suc k} {m' = m'} y e small at (next {m₁ = m₁} run on steps) =
      execute-suc n y e (ap (λ m. exec_once m.pc m) at ∙ run)
      ∙ continued-eq n (after y 1 m₁) on
      ∙ execute-Steps (after y 1 m₁) e (omega arith) refl steps
      ∙ ap (λ c. ok (record y { machine = m'; g_nr_guest_inst = c })) (counted y.g_nr_guest_inst k)

  -- With no watchpoint set, cpu_exec from a state that has not ended makes exactly the instructions
  -- of a run of at most `n`, counts them, and turns NEMU_RUNNING into NEMU_STOP; the watchpoints and
  -- the state of the evaluator stay.
  pub cpu_exec-Steps :
      {n k : ℕ} {m' : Machine} (y : System)
      → y.pool.head ≡ none
      → y.g_nr_guest_inst < u64
      → has_ended (state_of y.machine) ≡ false
      → Steps n k (with_state running y.machine) m'
      → cpu_exec fuel libc n y
        ≡ ok (record (after y k (with_state (settle (state_of m')) m')) { g_print_step = ltb n 10 })
  unfolding cpu_exec
  cpu_exec-Steps {n = n} y e small going steps =
      ap (λ b. if b then ok y₀ else and_then (execute fuel libc n y₁) settled) going
      ∙ ap (λ o. and_then o settled) (execute-Steps y₁ e small refl steps)
    where
      y₀ : System
      y₀ = record y { g_print_step = ltb n 10 }

      y₁ : System
      y₁ = record y₀ { machine = with_state running y.machine }

      settled : System → Outcome System
      settled y' = ok (record y' { machine = with_state (settle (state_of y'.machine)) y'.machine })
