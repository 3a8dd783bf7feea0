-- ===== src/Monitor.antt =====
-- Start-up and main: ysyx-workbench/nemu/src/monitor/monitor.c, src/nemu-main.c,
-- src/engine/interpreter/init.c, and init_log, init_mem and init_sdb. The options that getopt_long
-- finds, the files and rand are given; what is logged is left out. init_difftest and init_device
-- are empty in the configuration.
pub mod Session
pub mod GoodTrap
use rv32i.Base.{
  ℕ, ◌+◌, ◌%◌, Bool, true, false, ◌==◌, not, if◌then◌else◌, leb, List, [], ◌∷◌, length, Option,
  none, some, Outcome, ok, fail, assertion, host_overrun, and_then,
}
use rv32i.Machine.{Machine, RunState, stop, update, is_exit_status_bad}
use rv32i.Memory.{reset_vector, msize, guest_to_host}
use rv32i.Riscv.Init.{init_isa}
use rv32i.Watch.{init_wp_pool}
use rv32i.Expr.Tokens.{TokenType}
use rv32i.Cpu.{System}
use rv32i.Debugger.{Host, Message}
use rv32i.Debugger.Commands.{sdb_mainloop}

-- The statics of monitor.c and is_batch_mode of sdb.c.
pub record Options : Type 0 where
  pub is_batch_mode : Bool
  pub log_file : Option (List ℕ)
  pub diff_so_file : Option (List ℕ)
  pub img_file : Option (List ℕ)
  pub difftest_port : ℕ

-- What the host provides: the library, sscanf with %d, rand, fopen for writing, and the contents of
-- the files that can be read.
pub record World : Type 0 where
  pub host : Host
  pub scan_int : List ℕ → ℕ
  pub rand : ℕ
  pub can_write : List ℕ → Bool
  pub contents : List ℕ → Option (List ℕ)

abbrev pub defaults : Options
defaults = record {
  is_batch_mode = false;
  log_file = none;
  diff_so_file = none;
  img_file = none;
  difftest_port = 1234;
}

-- Every static is zero at first, and nemu_state is NEMU_STOP.
abbrev pub statics : System
statics = record {
  machine = record {
    gpr = λ i. 0;
    pc = 0;
    pmem = λ a. 0;
    nemu_state = record { state = stop; halt_pc = 0; halt_ret = 0 };
  };
  pool = record {
    nodes = λ i. record { no = 0; next = none; type = 0; str = []; last_value = 0 };
    head = none;
    free_ = none;
  };
  expr_state = record {
    table = record { tokens = λ i. record { type = TokenType.notype; str = [] }; nr_token = 0 };
    is_bad = false;
  };
  g_nr_guest_inst = 0;
  g_print_step = false;
}

-- The image at the reset vector: fread of one block, which is short for an empty file.
unfoldable pub copy_bytes : List ℕ → ℕ → (ℕ → ℕ) → ℕ → ℕ
copy_bytes [] off mem = mem
copy_bytes (b ∷ bs) off mem = copy_bytes bs (off + 1) (update mem off b)

module _ (world : World) where
  -- The loop over the results of getopt_long; `none` where the usage is printed and the program
  -- exits.
  unfoldable pub parse_args : List (ℕ × List ℕ) → Options → Option Options
  parse_args [] o = some o
  parse_args ((c, optarg) ∷ rest) o =
      let batch : Option Options = parse_args rest (record o { is_batch_mode = true }) in
      let port : Option Options =
        parse_args rest (record o { difftest_port = world.scan_int optarg }) in
      let log : Option Options = parse_args rest (record o { log_file = some optarg }) in
      let diff : Option Options = parse_args rest (record o { diff_so_file = some optarg }) in
      if c == b'b'
      then batch
      else (if c == b'p'
          then port
          else (if c == b'l'
              then log
              else (if c == b'd'
                  then diff
                  else (if c == 1 then some (record o { img_file = some optarg }) else none))))

  unfoldable pub init_log : Option (List ℕ) → Outcome (Unit {0})
  init_log none = ok tt
  init_log (some log_file) = if world.can_write log_file then ok tt else fail assertion

  -- memset of pmem, under CONFIG_MEM_RANDOM.
  unfoldable pub init_mem : Machine → Machine
  init_mem m = record m { pmem = λ a. if leb msize a then m.pmem a else world.rand % 256 }

  unfoldable pub load_img : Option (List ℕ) → Machine → Outcome (ℕ × Machine)
  unfolding copy_bytes guest_to_host
  load_img none m = ok (4096, m)
  load_img (some img_file) m = elim (world.contents img_file) [
    | none ↦ fail assertion
    | some bytes ↦
        (if length bytes == 0
          then fail assertion
          else (if leb (length bytes) msize
              then ok (
                length bytes,
                record m { pmem = copy_bytes bytes (guest_to_host reset_vector) m.pmem },
              )
              else fail host_overrun))
  ]

  unfoldable pub init_sdb : System → System
  unfolding init_wp_pool
  init_sdb y = record y { pool = init_wp_pool y.pool.nodes }

  -- init_monitor, behind parse_args.
  unfoldable pub init_system : Options → System → Outcome System
  unfolding init_log init_mem init_isa load_img init_sdb
  init_system o y = and_then (init_log o.log_file) λ _.
      and_then (load_img o.img_file (init_isa (init_mem y.machine)))
        λ (img_size, m). ok (init_sdb (record y { machine = m }))

  unfoldable pub init_monitor : List (ℕ × List ℕ) → System → Outcome (Option (Options × System))
  unfolding parse_args init_system
  init_monitor args y = elim (parse_args args defaults) [
    | none ↦ ok none
    | some o ↦ and_then (init_system o y) λ y'. ok (some (o, y'))
  ]

  -- main: the exit status, and what the session leaves; `none` for the exit of parse_args.
  unfoldable pub nemu_main :
      ℕ → List (ℕ × List ℕ) → List (List ℕ) → Outcome (Option (Bool × System × List Message))
  unfolding init_monitor sdb_mainloop is_exit_status_bad
  nemu_main fuel args lines = and_then (init_monitor args statics) λ r. elim r [
    | none ↦ ok none
    | some (o, y) ↦
        and_then (sdb_mainloop fuel world.host o.is_batch_mode lines y)
          λ (y', out). ok (some (is_exit_status_bad y'.machine.nemu_state, y', out))
  ]
