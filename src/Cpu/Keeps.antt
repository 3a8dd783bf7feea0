-- ===== src/Cpu/Keeps.antt =====
-- A predicate that every round keeps is kept by cpu_exec.
use rv32i.Base.{
  ℕ, zero, suc, ◌≡◌, refl, Bool, true, false, ltb, if◌then◌else◌, OnOk, on_ok, on_ok-eq, Outcome,
  ok, and_then,
}
use rv32i.Machine.{RunState, running, stop, end, abort, quit, is_running}
use rv32i.Expr.Eval.{Libc}
use rv32i.Cpu.{System, with_state, round, execute, has_ended, settle, cpu_exec}

settle-not_running : (st : RunState) → is_running (settle st) ≡ false
settle-not_running running = refl
settle-not_running stop = refl
settle-not_running end = refl
settle-not_running abort = refl
settle-not_running quit = refl

ended-not_running : (st : RunState) → has_ended st ≡ true → is_running st ≡ false
ended-not_running running e = cc
ended-not_running stop e = refl
ended-not_running end e = refl
ended-not_running abort e = refl
ended-not_running quit e = refl

module _ (fuel : ℕ) (libc : Libc) (P : System → Type 0) where
  -- What is asked of the predicate.
  pub record IsKept : Type 0 where
    pub of_round : (y : System) → P y → OnOk P (round fuel libc y)
    pub of_state :
        (st : RunState) (y : System) → P y → P (record y { machine = with_state st y.machine })
    pub of_print : (b : Bool) (y : System) → P y → P (record y { g_print_step = b })

  module _ (k : IsKept) where
    continued-IsKept :
        (n : ℕ) {y : System}
        → P y
        → OnOk P (execute fuel libc n y)
        → (b : Bool) → OnOk P (elim b [ true ↦ execute fuel libc n y | false ↦ ok y ])
    continued-IsKept n p rest true = rest
    continued-IsKept n p rest false = p

    execute-IsKept : (n : ℕ) (y : System) → P y → OnOk P (execute fuel libc n y)
    unfolding execute
    execute-IsKept zero y p = p
    execute-IsKept (suc n) y p = on_ok _ (round fuel libc y) _ λ y' e.
        let p' : P y' = on_ok-eq P (k.of_round y p) e in
        continued-IsKept n p' (execute-IsKept n y' p') (is_running y'.machine.nemu_state.state)

    abbrev pub IsSettled : System → Type 0
    IsSettled y = P y × (is_running y.machine.nemu_state.state ≡ false)

    pub cpu_exec-IsKept : (n : ℕ) (y : System) → P y → OnOk IsSettled (cpu_exec fuel libc n y)
    unfolding cpu_exec with_state
    cpu_exec-IsKept n y p = split (has_ended y.machine.nemu_state.state) refl
      where
        y₀ : System
        y₀ = record y { g_print_step = ltb n 10 }

        y₁ : System
        y₁ = record y₀ { machine = with_state running y₀.machine }

        settled : System → Outcome System
        settled y' =
            ok (record y' { machine = with_state (settle y'.machine.nemu_state.state) y'.machine })

        split :
            (b : Bool)
            → has_ended y.machine.nemu_state.state ≡ b
            → OnOk IsSettled (if b then ok y₀ else and_then (execute fuel libc n y₁) settled)
        split true e = (k.of_print (ltb n 10) y p, ended-not_running _ e)
        split false e = on_ok _ (execute fuel libc n y₁) _ λ y' r. (
          k.of_state _ y' (
              on_ok-eq P (execute-IsKept n y₁ (k.of_state running y₀ (k.of_print (ltb n 10) y p)))
                r),
          settle-not_running y'.machine.nemu_state.state,
        )
