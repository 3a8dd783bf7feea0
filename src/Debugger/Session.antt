-- ===== src/Debugger/Session.antt =====
-- Every command keeps the machine well-formed and the two lists of watchpoints.
use rv32i.Base.{ℕ, ◌≡◌, false, List, Outcome, ok, fail, OnOk, on_ok, on_ok-eq}
use rv32i.Machine.{is_running}
use rv32i.Watch.{Pool, check_wp}
use rv32i.Watch.Refine.{IsPool}
use rv32i.Watch.Links.{check_wp-IsPool}
use rv32i.Expr.Eval.{Libc, ExprState, expr}
use rv32i.Cpu.{System, exec_once, trace_and_difftest, round, cpu_exec}
use rv32i.Cpu.Keeps.{IsKept, cpu_exec-IsKept}
use rv32i.Cpu.Invariant.{IsSystem, system_kept}

-- A well-formed system with a well-formed pool.
pub record IsSession (y : System) : Type 0 where
  pub system : IsSystem y
  pub active : List ℕ
  pub free : List ℕ
  pub pool : IsPool y.pool active free

-- The system with other contents of the debugger's own data.
pub with_pool :
    {y : System} (p : Pool) {active free : List ℕ}
    → IsSession y
    → IsPool p active free
    → IsSession (record y { pool = p })
with_pool p k q = record {
  system = record {
    pc_lt = k.system.pc_lt;
    machine = k.system.machine;
    zero_reg = k.system.zero_reg;
    counter = k.system.counter;
  };
  active = _;
  free = _;
  pool = q;
}

pub with_expr : {y : System} (s : ExprState) → IsSession y → IsSession (record y { expr_state = s })
with_expr s k = record {
  system = record {
    pc_lt = k.system.pc_lt;
    machine = k.system.machine;
    zero_reg = k.system.zero_reg;
    counter = k.system.counter;
  };
  active = k.active;
  free = k.free;
  pool = k.pool;
}

module _ (fuel : ℕ) (libc : Libc) where
  round-IsPool :
      {active free : List ℕ} (y : System)
      → IsPool y.pool active free
      → OnOk (λ y'. IsPool y'.pool active free) (round fuel libc y)
  unfolding round trace_and_difftest
  round-IsPool {active} {free} y k =
      on_ok (λ y'. IsPool y'.pool active free) (exec_once y.machine.pc y.machine) _
        λ m e.
          on_ok (λ y'. IsPool y'.pool active free)
            (check_wp (λ e. expr fuel libc m e) y.pool y.expr_state) _
            λ r e.
              on_ok-eq (λ r. IsPool r.1 active free)
                (check_wp-IsPool (λ e. expr fuel libc m e) y.pool y.expr_state k) e

  IsSession-of_round : (y : System) → IsSession y → OnOk IsSession (round fuel libc y)
  IsSession-of_round y k =
      both (round fuel libc y) ((system_kept fuel libc).of_round y k.system) (round-IsPool y k.pool)
    where
      both :
          (o : Outcome System)
          → OnOk IsSystem o
          → OnOk (λ y'. IsPool y'.pool k.active k.free) o
          → OnOk IsSession o
      both (ok y') h g = record { system = h; active = k.active; free = k.free; pool = g }
      both (fail e) h g = tt

  IsSession-IsKept : IsKept fuel libc IsSession
  IsSession-IsKept = record {
    of_round = IsSession-of_round;
    of_state = λ st y k. record {
      system = (system_kept fuel libc).of_state st y k.system;
      active = k.active;
      free = k.free;
      pool = k.pool;
    };
    of_print = λ b y k. record {
      system = (system_kept fuel libc).of_print b y k.system;
      active = k.active;
      free = k.free;
      pool = k.pool;
    };
  }

  pub cpu_exec-IsSession :
      (n : ℕ) (y : System) → IsSession y → OnOk IsSession (cpu_exec fuel libc n y)
  cpu_exec-IsSession n y k =
      first (cpu_exec fuel libc n y) (cpu_exec-IsKept fuel libc IsSession IsSession-IsKept n y k)
    where
      first :
          (o : Outcome System)
          → OnOk (λ y'. IsSession y' × (is_running y'.machine.nemu_state.state ≡ false)) o
          → OnOk IsSession o
      first (ok y') h = h.0
      first (fail e) h = tt
