-- ===== src/Debugger/Kept.antt =====
-- Every command leaves a well-formed session.
use rv32i.Base.{
  ℕ, ◌-◌, ◌≡◌, Bool, true, false, if◌then◌else◌, List, [], ◌∷◌, Option, none, some, length, ltb,
  ◌%◌, ◌^◌, sym, subst, Outcome, ok, fail, assertion, and_then, OnOk, on_ok, on_ok-eq, codes,
}
use rv32i.Word.{u64}
use rv32i.Machine.{quit}
use rv32i.Memory.{in_pmem}
use rv32i.Watch.{Pool, new_wp}
use rv32i.Watch.Refine.{IsPool}
use rv32i.Watch.Operations.{new_wp-take_first, free_wp-give_back}
use rv32i.Watch.Links.{IsPool-congr, same_str, same_last_value}
use rv32i.Expr.Eval.{expr}
use rv32i.Cpu.{System, cpu_exec}
use rv32i.Cpu.Invariant.{system_kept}
use rv32i.Riscv.Reg.{same_text}
use rv32i.Debugger.{
  Host, Handler, cmd_help, cmd_c, cmd_q, cmd_si, cmd_info, cmd_x, cmd_p, cmd_w, cmd_d, cmd_table,
  find_cmd, Message,
}
use rv32i.Debugger.Commands.{
  Result, goes_on, continue_run, quit_run, step_run, info, evaluate, examine_loop, examine, print,
  set_watch, watch, delete, help, run_cmd, run_line, appended, run_lines, sdb_mainloop,
}
use rv32i.Debugger.Session.{IsSession, with_pool, with_expr, cpu_exec-IsSession}

-- What a handler leaves is a well-formed session.
abbrev Session : Bool × System × List Message → Type 0
Session r = IsSession r.1

abbrev Keeps : Result → Type 0
Keeps = OnOk Session

-- The same for an evaluation.
abbrev Evaluated : ℕ × Bool × System → Type 0
Evaluated r = IsSession r.2

module _ (fuel : ℕ) (host : Host) where
  runs_on :
      (n : ℕ) (y : System)
      → IsSession y
      → Keeps (and_then (cpu_exec fuel host.libc n y) (goes_on []))
  runs_on n y k =
      on_ok Session (cpu_exec fuel host.libc n y) _
        λ y' e. on_ok-eq IsSession (cpu_exec-IsSession fuel host.libc n y k) e

  evaluate-IsSession :
      (e : List ℕ) (y : System) → IsSession y → OnOk Evaluated (evaluate fuel host e y)
  unfolding evaluate
  evaluate-IsSession e y k =
      on_ok Evaluated (expr fuel host.libc y.machine e y.expr_state) _
        λ (v, success, s) _. with_expr s k

  -- A handler that evaluates a text first.
  behind_evaluate :
      (e : List ℕ) (y : System) (f : ℕ × Bool × System → Result)
      → IsSession y
      → ((r : ℕ × Bool × System) → IsSession r.2 → Keeps (f r))
      → Keeps (and_then (evaluate fuel host e y) f)
  behind_evaluate e y f k h =
      on_ok Session (evaluate fuel host e y) f
        λ r q. h r (on_ok-eq Evaluated (evaluate-IsSession e y k) q)

  continue_run-IsSession : (y : System) → IsSession y → Keeps (continue_run fuel host y)
  unfolding continue_run
  continue_run-IsSession y k = runs_on (u64 - 1) y k

  quit_run-IsSession : (y : System) → IsSession y → Keeps (quit_run fuel host y)
  unfolding quit_run
  quit_run-IsSession y k = record {
    system = (system_kept fuel host.libc).of_state quit y k.system;
    active = k.active;
    free = k.free;
    pool = k.pool;
  }

  step_run-IsSession :
      (rest : List ℕ) (y : System) → IsSession y → Keeps (step_run fuel host rest y)
  unfolding step_run
  step_run-IsSession rest y k = runs_on _ y k

  -- On both branches of a test.
  either : (b : Bool) (m n : Result) → Keeps m → Keeps n → Keeps (if b then m else n)
  either true m n h g = h
  either false m n h g = g

  maybe :
      {A : Type 0} (o : Option A) (m : Result) (f : A → Result)
      → Keeps m
      → ((a : A) → Keeps (f a))
      → Keeps (elim o [ none ↦ m | some a ↦ f a ])
  maybe none m f h g = h
  maybe (some a) m f h g = g a

  info-IsSession : (rest : List ℕ) (y : System) → IsSession y → Keeps (info fuel host rest y)
  unfolding info
  info-IsSession [] y k = k
  info-IsSession (c ∷ s) y k =
      either (same_text (c ∷ s) (codes "r")) _ _ k (either (same_text (c ∷ s) (codes "w")) _ _ k k)

  examine-IsSession : (rest : List ℕ) (y : System) → IsSession y → Keeps (examine fuel host rest y)
  unfolding examine
  examine-IsSession rest y k = maybe (host.strtok rest (codes " ")) _ _ k λ (n, behind).
      maybe (host.strtok behind []) _ _ k λ (e, _).
        behind_evaluate e y _ k λ (paddr, success, y') k'.
          either success _ _
            (either (in_pmem paddr) _ _
              (on_ok Session (examine_loop fuel host (host.libc.atoi n % 2 ^ 30) paddr 0 y'.machine)
                _ λ out _. k')
              k')
            k'

  print-IsSession : (rest : List ℕ) (y : System) → IsSession y → Keeps (print fuel host rest y)
  unfolding print
  print-IsSession [] y k = k
  print-IsSession (c ∷ s) y k =
      behind_evaluate (c ∷ s) y _ k λ (v, success, y') k'. either success _ _ k' k'

  set_watch-IsSession :
      (wp : ℕ) (args : List ℕ) (y : System) → IsSession y → Keeps (set_watch fuel host wp args y)
  unfolding set_watch
  set_watch-IsSession wp args y k =
      either (ltb (length args) 32) _ _
        (behind_evaluate args _ _
          (with_pool _ k (IsPool-congr (same_str y.pool.nodes wp args) k.pool))
          λ (v, success, y') k'.
            either success _ _
              (with_pool _ k' (IsPool-congr (same_last_value y'.pool.nodes wp v) k'.pool)) tt)
        tt

  watch-IsSession : (rest : List ℕ) (y : System) → IsSession y → Keeps (watch fuel host rest y)
  unfolding watch
  watch-IsSession [] y k = k
  watch-IsSession (c ∷ s) y k =
      taken (new_wp y.pool).0 (new_wp y.pool).1 (new_wp-take_first y.pool k.active k.free k.pool).1
    where
      taken :
          (o : Option ℕ) (p : Pool) {active free : List ℕ}
          → IsPool p active free
          → Keeps (elim o [
            | none ↦ fail assertion
            | some w ↦ set_watch fuel host w (c ∷ s) (record y { pool = p })
          ])
      taken none p q = tt
      taken (some w) p q = set_watch-IsSession w (c ∷ s) _ (with_pool p k q)

  delete-IsSession : (rest : List ℕ) (y : System) → IsSession y → Keeps (delete fuel host rest y)
  unfolding delete
  delete-IsSession [] y k = k
  delete-IsSession (c ∷ s) y k =
      let (p', e, q, _) =
        free_wp-give_back (host.libc.atoi (c ∷ s)) y.pool k.active k.free k.pool in
      subst (λ o. Keeps (and_then o λ p. goes_on [] (record y { pool = p }))) (sym e)
        (with_pool p' k q)

  help-IsSession : (rest : List ℕ) (y : System) → IsSession y → Keeps (help fuel host rest y)
  unfolding help
  help-IsSession rest y k =
      maybe (host.strtok rest (codes " ")) _ _ k
        λ (arg, _). maybe (find_cmd arg cmd_table) _ _ k λ c. k

  run_cmd-IsSession :
      (h : Handler) (rest : List ℕ) (y : System) → IsSession y → Keeps (run_cmd fuel host h rest y)
  unfolding run_cmd
  run_cmd-IsSession cmd_help rest y k = help-IsSession rest y k
  run_cmd-IsSession cmd_c rest y k = continue_run-IsSession y k
  run_cmd-IsSession cmd_q rest y k = quit_run-IsSession y k
  run_cmd-IsSession cmd_si rest y k = step_run-IsSession rest y k
  run_cmd-IsSession cmd_info rest y k = info-IsSession rest y k
  run_cmd-IsSession cmd_x rest y k = examine-IsSession rest y k
  run_cmd-IsSession cmd_p rest y k = print-IsSession rest y k
  run_cmd-IsSession cmd_w rest y k = watch-IsSession rest y k
  run_cmd-IsSession cmd_d rest y k = delete-IsSession rest y k

  run_line-IsSession : (str : List ℕ) (y : System) → IsSession y → Keeps (run_line fuel host str y)
  unfolding run_line
  run_line-IsSession str y k = maybe (host.strtok str (codes " ")) _ _ k λ (name, rest).
      maybe (find_cmd name cmd_table) _ _ k λ c. run_cmd-IsSession c.handler rest y k

  abbrev Ended : Outcome (System × List Message) → Type 0
  Ended = OnOk λ r. IsSession r.0

  appended-IsSession :
      (out : List Message) (r : System × List Message)
      → IsSession r.0
      → IsSession (appended fuel host out r).0
  appended-IsSession [] r k = k
  appended-IsSession (m ∷ out) r k = appended-IsSession out r k

  run_lines-IsSession :
      (lines : List (List ℕ)) (y : System) → IsSession y → Ended (run_lines fuel host lines y)
  unfolding run_lines
  run_lines-IsSession [] y k = k
  run_lines-IsSession (str ∷ lines) y k =
      on_ok (λ r. IsSession r.0) (run_line fuel host str y) _
        λ (done, y', out) e.
          let k' : IsSession y' = on_ok-eq Session (run_line-IsSession str y k) e in
          next done y' out k' (run_lines-IsSession lines y' k')
    where
      next :
          (done : Bool) (y' : System) (out : List Message)
          → IsSession y'
          → Ended (run_lines fuel host lines y')
          → Ended (elim done [
            | true ↦ ok (y', out)
            | false ↦ and_then (run_lines fuel host lines y') λ r. ok (appended fuel host out r)
          ])
      next true y' out k' rest = k'
      next false y' out k' rest =
          on_ok (λ r. IsSession r.0) (run_lines fuel host lines y') _
            λ r e. appended-IsSession out r (on_ok-eq (λ r. IsSession r.0) rest e)

  -- Whatever lines the user enters, in batch mode or not: wherever sdb_mainloop returns, registers
  -- and pc are 32-bit words, $zero is 0, memory cells are bytes, the counter is a 64-bit number, and
  -- head and free_ lead through two lists without a common node that hold all 32 watchpoints, if
  -- this was so before.
  pub sdb_mainloop-IsSession :
      (is_batch_mode : Bool) (lines : List (List ℕ)) (y : System) {y' : System} {out : List Message}
      → IsSession y
      → sdb_mainloop fuel host is_batch_mode lines y ≡ ok (y', out)
      → IsSession y'
  unfolding sdb_mainloop
  sdb_mainloop-IsSession true lines y k e =
      let ends : Ended (sdb_mainloop fuel host true lines y) =
        on_ok (λ r. IsSession r.0) (continue_run fuel host y) _
          λ r q. on_ok-eq Session (continue_run-IsSession y k) q in
      on_ok-eq (λ r. IsSession r.0) ends e
  sdb_mainloop-IsSession false lines y k e =
      on_ok-eq (λ r. IsSession r.0) (run_lines-IsSession lines y k) e
