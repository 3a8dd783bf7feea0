-- ===== src/Debugger/Commands.antt =====
-- The handlers of ysyx-workbench/nemu/src/monitor/sdb/sdb.c. Each takes the text behind the command;
-- its args is NULL where that text is empty. init_regex compiles the rules again, to no effect.
use rv32i.Base.{
  ℕ, zero, suc, ◌+◌, ◌-◌, ◌%◌, ◌^◌, Bool, true, false, if◌then◌else◌, ltb, List, [], ◌∷◌, length,
  Option, none, some, codes, Outcome, ok, fail, assertion, host_overrun, and_then,
}
use rv32i.Word.{u64, add32, sext}
use rv32i.Machine.{Machine, quit, update}
use rv32i.Memory.{in_pmem, paddr_read}
use rv32i.Watch.{new_wp, free_wp}
use rv32i.Expr.Eval.{expr}
use rv32i.Cpu.{System, with_state, cpu_exec}
use rv32i.Riscv.Reg.{same_text}
use rv32i.Debugger.{
  Host, Handler, cmd_help, cmd_c, cmd_q, cmd_si, cmd_info, cmd_x, cmd_p, cmd_w, cmd_d, Cmd,
  cmd_table, find_cmd, Message, no_argument, invalid_argument, not_enough, registers, watchpoints,
  added, word, value, outside, usage, unknown,
}

-- What a handler leaves: whether it returned a negative number, the system, and what it printed.
abbrev pub Result : Type 0
Result = Outcome (Bool × System × List Message)

abbrev pub goes_on : List Message → System → Result
goes_on out y = ok (false, y, out)

abbrev pub not_null : List ℕ → Option (List ℕ)
not_null [] = none
not_null (c ∷ s) = some (c ∷ s)

abbrev pub blank : List ℕ
blank = codes " "

module _ (fuel : ℕ) (host : Host) where
  abbrev token : List ℕ → Option (List ℕ × List ℕ)
  token rest = host.strtok rest blank

  -- cpu_exec(-1)
  unfoldable pub continue_run : System → Result
  unfolding cpu_exec
  continue_run y = and_then (cpu_exec fuel host.libc (u64 - 1) y) (goes_on [])

  unfoldable pub quit_run : System → Result
  unfolding with_state
  quit_run y = ok (true, record y { machine = with_state quit y.machine }, [])

  -- The argument is an int, and becomes a uint64_t.
  unfoldable pub step_run : List ℕ → System → Result
  unfolding cpu_exec sext
  step_run rest y =
      let step : ℕ = elim (token rest) [
        | none ↦ 1
        | some (arg, _) ↦ sext (host.libc.atoi arg) 32
      ] in
      and_then (cpu_exec fuel host.libc step y) (goes_on [])

  unfoldable pub info : List ℕ → System → Result
  unfolding same_text
  info rest y = elim (not_null rest) [
    | none ↦ goes_on (no_argument ∷ []) y
    | some args ↦
        (if same_text args (codes "r")
          then goes_on (registers ∷ []) y
          else (if same_text args (codes "w")
              then goes_on (watchpoints ∷ []) y
              else goes_on (invalid_argument ∷ []) y))
  ]

  -- expr on the system's registers and memory.
  unfoldable pub evaluate : List ℕ → System → Outcome (ℕ × Bool × System)
  unfolding expr
  evaluate e y =
      and_then (expr fuel host.libc y.machine e y.expr_state)
        λ (v, success, s). ok (v, success, record y { expr_state = s })

  -- The loop of cmd_x, from the offset `i` on.
  unfoldable pub examine_loop : ℕ → ℕ → ℕ → Machine → Outcome (List Message)
  unfolding add32 paddr_read
  examine_loop zero paddr i m = ok []
  examine_loop (suc rounds) paddr i m = and_then (paddr_read (add32 paddr i) 4 m) λ (v, _).
      and_then (examine_loop rounds paddr (i + 4) m) λ out. ok (word (add32 paddr i) v ∷ out)

  unfoldable pub examine : List ℕ → System → Result
  unfolding evaluate in_pmem examine_loop
  examine rest y = elim (token rest) [
    | none ↦ goes_on (not_enough ∷ []) y
    | some (n, behind) ↦ elim (host.strtok behind []) [
      | none ↦ goes_on (not_enough ∷ []) y
      | some (expression, _) ↦ and_then (evaluate expression y) λ (paddr, success, y').
          (if success
            then (if in_pmem paddr
                then and_then (examine_loop (host.libc.atoi n % 2 ^ 30) paddr 0 y'.machine)
                    (λ out. goes_on out y')
                else goes_on (outside paddr ∷ []) y')
            else goes_on [] y')
    ]
  ]

  unfoldable pub print : List ℕ → System → Result
  unfolding evaluate
  print rest y = elim (not_null rest) [
    | none ↦ goes_on (no_argument ∷ []) y
    | some args ↦
        and_then (evaluate args y)
          λ (v, success, y'). (if success then goes_on (value v ∷ []) y' else goes_on [] y')
  ]

  -- The copy of the text into str[32], and the evaluation.
  unfoldable pub set_watch : ℕ → List ℕ → System → Result
  unfolding evaluate
  set_watch wp args y =
      if ltb (length args) 32
      then (let nodes = update y.pool.nodes wp (record (y.pool.nodes wp) { str = args }) in
          and_then (evaluate args (record y { pool = record y.pool { nodes = nodes } }))
            λ (v, success, y').
              (if success
                then goes_on (added ∷ []) (record y' {
                  pool = record y'.pool {
                    nodes = update y'.pool.nodes wp (record (y'.pool.nodes wp) { last_value = v });
                  };
                })
                else fail assertion))
      else fail host_overrun

  unfoldable pub watch : List ℕ → System → Result
  unfolding new_wp set_watch
  watch rest y = elim (not_null rest) [
    | none ↦ goes_on (no_argument ∷ []) y
    | some args ↦
        (let (wp, pool) = new_wp y.pool in
          elim wp [ none ↦ fail assertion | some w ↦ set_watch w args (record y { pool = pool }) ])
  ]

  unfoldable pub delete : List ℕ → System → Result
  unfolding free_wp
  delete rest y = elim (not_null rest) [
    | none ↦ goes_on (no_argument ∷ []) y
    | some args ↦
        and_then (free_wp (host.libc.atoi args) y.pool)
          λ pool. goes_on [] (record y { pool = pool })
  ]

  abbrev usages : List Cmd → List Message
  usages [] = []
  usages (c ∷ cs) = usage c ∷ usages cs

  unfoldable pub help : List ℕ → System → Result
  unfolding find_cmd cmd_table
  help rest y = elim (token rest) [
    | none ↦ goes_on (usages cmd_table) y
    | some (arg, _) ↦ elim (find_cmd arg cmd_table) [
      | none ↦ goes_on (unknown arg ∷ []) y
      | some c ↦ goes_on (usage c ∷ []) y
    ]
  ]

  unfoldable pub run_cmd : Handler → List ℕ → System → Result
  run_cmd cmd_help rest = help rest
  run_cmd cmd_c rest = continue_run
  run_cmd cmd_q rest = quit_run
  run_cmd cmd_si rest = step_run rest
  run_cmd cmd_info rest = info rest
  run_cmd cmd_x rest = examine rest
  run_cmd cmd_p rest = print rest
  run_cmd cmd_w rest = watch rest
  run_cmd cmd_d rest = delete rest

  -- One line of sdb_mainloop.
  unfoldable pub run_line : List ℕ → System → Result
  unfolding find_cmd cmd_table run_cmd
  run_line str y = elim (token str) [
    | none ↦ goes_on [] y
    | some (name, rest) ↦ elim (find_cmd name cmd_table) [
      | none ↦ goes_on (unknown name ∷ []) y
      | some c ↦ run_cmd c.handler rest y
    ]
  ]

  abbrev pub appended : List Message → System × List Message → System × List Message
  appended [] r = r
  appended (m ∷ out) r = let (y, ms) = appended out r in (y, m ∷ ms)

  -- The loop of sdb_mainloop over the lines that are read.
  unfoldable pub run_lines : List (List ℕ) → System → Outcome (System × List Message)
  unfolding run_line
  run_lines [] y = ok (y, [])
  run_lines (str ∷ lines) y = and_then (run_line str y) λ (done, y', out). elim done [
    | true ↦ ok (y', out)
    | false ↦ and_then (run_lines lines y') λ r. ok (appended out r)
  ]

  unfoldable pub sdb_mainloop : Bool → List (List ℕ) → System → Outcome (System × List Message)
  unfolding continue_run run_lines
  sdb_mainloop is_batch_mode lines y =
      if is_batch_mode
      then and_then (continue_run y) (λ (_, y', out). ok (y', out))
      else run_lines lines y
