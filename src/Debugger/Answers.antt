-- ===== src/Debugger/Answers.antt =====
-- What the commands q and w come to.
use rv32i.Base.{
  ℕ, ◌≡◌, refl, arith, true, false, ltb, List, [], ◌∷◌, Option, none, some, length, ap, ◌∙◌, ok,
  fail, assertion, and_then, codes,
}
use rv32i.Machine.{quit, update, is_exit_status_bad}
use rv32i.Watch.{Nodes, Pool, activate}
use rv32i.Watch.Refine.{IsPool, IsPool-activate, new_wp_of_free}
use rv32i.Watch.Links.{IsPool-congr, same_str, same_last_value}
use rv32i.Expr.Eval.{ExprState, expr}
use rv32i.Cpu.{System, with_state}
use rv32i.Debugger.{Host, find_cmd, cmd_table, added, unknown}
use rv32i.Debugger.Commands.{
  Result, set_watch, watch, evaluate, run_cmd, quit_run, run_line, run_lines,
}

module _ (fuel : ℕ) (host : Host) where
  -- The system behind cmd_w: node `w` is active, and holds the text and its value.
  abbrev watched : ℕ → List ℕ → ℕ → ExprState → System → System
  watched w args v es y =
      let p = activate y.pool w in
      let nodes = update p.nodes w (record (p.nodes w) { str = args }) in
      record y {
        expr_state = es;
        pool = record p { nodes = update nodes w (record (nodes w) { last_value = v }) };
      }

  evaluate-eq :
      (args : List ℕ) (y : System) {v : ℕ} {es : ExprState}
      → expr fuel host.libc y.machine args y.expr_state ≡ ok (v, true, es)
      → evaluate fuel host args y ≡ ok (v, true, record y { expr_state = es })
  unfolding evaluate
  evaluate-eq args y e =
      ap (λ o. and_then o λ (v, success, s). ok (v, success, record y { expr_state = s })) e

  set_watch-eq :
      (w : ℕ) (args : List ℕ) (y : System) {v : ℕ} {es : ExprState}
      → ltb (length args) 32 ≡ true
      → expr fuel host.libc y.machine args y.expr_state ≡ ok (v, true, es)
      → set_watch fuel host w args (record y { pool = activate y.pool w })
        ≡ ok (false, watched w args v es y, added ∷ [])
  unfolding set_watch
  set_watch-eq w args y lt e =
      let q =
        evaluate-eq args
          (record y {
            pool = record (activate y.pool w) {
              nodes =
                  update (activate y.pool w).nodes w
                    (record ((activate y.pool w).nodes w) { str = args });
            };
          })
          e in
      rw (lt, q) refl

  -- The command w, with a text of at most 31 characters that can be evaluated, takes the first free
  -- watchpoint, puts it in front of the active ones, and leaves the text and its value in it; the
  -- machine stays, and the pool is well-formed.
  pub watch-added :
      (c : ℕ) (s : List ℕ) (y : System) (w : ℕ) (active ws : List ℕ) {v : ℕ} {es : ExprState}
      → IsPool y.pool active (w ∷ ws)
      → ltb (length (c ∷ s)) 32 ≡ true
      → expr fuel host.libc y.machine (c ∷ s) y.expr_state ≡ ok (v, true, es)
      → (y' : System) × (watch fuel host (c ∷ s) y ≡ ok (false, y', added ∷ []))
        × IsPool y'.pool (w ∷ active) ws
        × ((y'.pool.nodes w).str ≡ c ∷ s)
        × ((y'.pool.nodes w).last_value ≡ v)
        × (y'.machine ≡ y.machine)
  unfolding watch
  watch-added c s y w active ws {v} {es} k lt e = (
    watched w (c ∷ s) v es y,
    ap behind (new_wp_of_free y.pool w k.free_chain.0) ∙ set_watch-eq w (c ∷ s) y lt e,
    IsPool-congr (same_last_value _ w v)
        (IsPool-congr (same_str (activate y.pool w).nodes w (c ∷ s)) (IsPool-activate w ws k)),
    text_of texted w v ∙ text_at (activate y.pool w).nodes w (c ∷ s),
    value_at texted w v,
    refl,
  )
    where
      texted : Nodes
      texted = let f = (activate y.pool w).nodes in update f w (record (f w) { str = c ∷ s })

      behind : Option ℕ × Pool → Result
      behind (o, pool) = elim o [
        | none ↦ fail assertion
        | some w ↦ set_watch fuel host w (c ∷ s) (record y { pool = pool })
      ]

      text_at : (f : Nodes) (i : ℕ) (t : List ℕ) → (update f i (record (f i) { str = t }) i).str ≡ t
      text_at f i t = ground arith

      text_of :
          (f : Nodes) (i v : ℕ) → (update f i (record (f i) { last_value = v }) i).str ≡ (f i).str
      text_of f i v = ground arith

      value_at :
          (f : Nodes) (i v : ℕ) → (update f i (record (f i) { last_value = v }) i).last_value ≡ v
      value_at f i v = ground arith

  run_line-quit :
      (line rest : List ℕ) (y : System)
      → host.strtok line (codes " ") ≡ some (codes "q", rest)
      → run_line fuel host line y ≡ ok (true, record y { machine = with_state quit y.machine }, [])
  unfolding run_line find_cmd cmd_table run_cmd quit_run
  run_line-quit line rest y e = λ i. elim (e i) [
    | none ↦ ok (false, y, [])
    | some (name, rest) ↦ elim (find_cmd name cmd_table) [
      | none ↦ ok (false, y, unknown name ∷ [])
      | some c ↦ run_cmd fuel host c.handler rest y
    ]
  ]

  -- A line whose first word is q ends the session, whatever follows it: the lines behind it are not
  -- run, nothing is printed, only the state changes, and the exit status that it leaves is good.
  run_lines-quit :
      (line rest : List ℕ) (lines : List (List ℕ)) (y : System)
      → host.strtok line (codes " ") ≡ some (codes "q", rest)
      → (run_lines fuel host (line ∷ lines) y
          ≡ ok (record y { machine = with_state quit y.machine }, []))
        × (is_exit_status_bad (with_state quit y.machine).nemu_state ≡ false)
  unfolding run_lines with_state is_exit_status_bad
  run_lines-quit line rest lines y e = (rw (run_lines, run_line-quit line rest y e) refl, refl)
