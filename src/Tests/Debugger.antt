-- ===== src/Tests/Debugger.antt =====
-- The commands q and w, and main, with a library that knows decimal numbers of one digit.
use rv32i.Base.{
  ℕ, ◌-◌, ◌≡◌, refl, true, false, ◌==◌, if◌then◌else◌, List, [], ◌∷◌, Option, none, some, codes, ok,
}
use rv32i.Machine.{end, is_exit_status_bad}
use rv32i.Watch.Refine.{IsPool}
use rv32i.Watch.Init.{upward, init_wp_pool-IsPool}
use rv32i.Expr.Tokens.{rules}
use rv32i.Expr.Eval.{Libc, ExprState, check_parentheses, eval_leaf, expr}
use rv32i.Riscv.Reg.{same_text}
use rv32i.Cpu.{System}
use rv32i.Debugger.{Host, added}
use rv32i.Debugger.Commands.{watch}
use rv32i.Debugger.Session.{IsSession}
use rv32i.Debugger.Answers.{watch-added}
use rv32i.Monitor.{World, Options, defaults, parse_args, init_log, nemu_main}
use rv32i.Monitor.Session.{IsWorld, nemu_main-IsSession}
use rv32i.Monitor.GoodTrap.{nemu_main-good_trap}
use rv32i.Tests.Cpu.{system}

-- One digit is a number; only the rule for decimal numbers matches.
abbrev pub digit_libc : Libc
digit_libc = record {
  regexec = λ r e. elim e [
    | [] ↦ none
    | c ∷ rest ↦ (if same_text r (codes "[0-9]+") then some 1 else none)
  ];
  atoi = λ s. elim s [ [] ↦ 0 | c ∷ rest ↦ c - b'0' ];
  scan_hex = λ s. 0;
}

-- The text up to the first blank is the token.
abbrev words : List ℕ → List ℕ → Option (List ℕ × List ℕ)
words [] blanks = none
words (c ∷ s) blanks =
    if c == b' '
    then some ([], s)
    else elim (words s blanks) [ none ↦ some (c ∷ [], []) | some (t, rest) ↦ some (c ∷ t, rest) ]

abbrev host : Host
host = record { libc = digit_libc; strtok = words }

seven-expr :
    (es : ExprState) × (expr 5 digit_libc system.machine (codes "7") system.expr_state
      ≡ ok (7, true, es))
unfolding expr rules same_text check_parentheses eval_leaf
seven-expr = (_, refl)

watch-added_example :
    (y' : System) × (watch 5 host (codes "7") system ≡ ok (false, y', added ∷ []))
    × IsPool y'.pool (0 ∷ []) (upward 31 1)
    × ((y'.pool.nodes 0).str ≡ codes "7")
    × ((y'.pool.nodes 0).last_value ≡ 7)
    × (y'.machine ≡ system.machine)
watch-added_example =
    watch-added 5 host b'7' [] system 0 [] (upward 31 1) (init_wp_pool-IsPool _) refl seven-expr.1

abbrev world : World
world = record {
  host = host;
  scan_int = λ s. 0;
  rand = 1804289383;
  can_write = λ s. true;
  contents = λ s. none;
}

world-IsWorld : IsWorld world
world-IsWorld name bytes e = cc

abbrev batch : Options
batch = record defaults { is_batch_mode = true }

nemu_main-good_trap_example :
    (y : System) × (nemu_main world 5 ((b'b', []) ∷ []) [] ≡ ok (some (false, y, [])))
    × (y.machine.nemu_state ≡ record { state = end; halt_pc = 0x80000020; halt_ret = 0 })
    × (y.g_nr_guest_inst ≡ 9)
unfolding parse_args init_log
nemu_main-good_trap_example =
    nemu_main-good_trap world 5 ((b'b', []) ∷ []) [] batch refl refl refl refl

-- The system behind that run.
batch_run : (y : System) × (nemu_main world 5 ((b'b', []) ∷ []) [] ≡ ok (some (false, y, [])))
unfolding parse_args init_log
batch_run =
    let r = nemu_main-good_trap world 5 ((b'b', []) ∷ []) [] batch refl refl refl refl in (r.0, r.1)

nemu_main-IsSession_example :
    IsSession batch_run.0 × (false ≡ is_exit_status_bad batch_run.0.machine.nemu_state)
nemu_main-IsSession_example =
    nemu_main-IsSession world world-IsWorld 5 ((b'b', []) ∷ []) [] batch_run.1
