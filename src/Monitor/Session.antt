-- ===== src/Monitor/Session.antt =====
-- The emulator starts in a well-formed session, and keeps it.
use rv32i.Base.{
  ℕ, ◌+◌, ◌<◌, ◌≡◌, refl, arith, Bool, true, false, ◌==◌, if◌then◌else◌, leb, List, [], ◌∷◌, length,
  Option, none, some, ok, fail, assertion, host_overrun, and_then, OnOk, on_ok, on_ok-eq,
}
use rv32i.Word.{u32, u64}
use rv32i.Machine.{Machine, update, is_exit_status_bad}
use rv32i.Memory.{reset_vector, msize, guest_to_host}
use rv32i.Memory.Laws.{store_bytes-AreBytes}
use rv32i.Riscv.Init.{img, copy_words, restart, init_isa}
use rv32i.Riscv.Bodies.{IsMachine}
use rv32i.Watch.Init.{init_wp_pool-IsPool, upward}
use rv32i.Watch.{nr_wp}
use rv32i.Cpu.{System}
use rv32i.Debugger.{Message}
use rv32i.Debugger.Commands.{sdb_mainloop}
use rv32i.Debugger.Session.{IsSession}
use rv32i.Debugger.Kept.{sdb_mainloop-IsSession}
use rv32i.Monitor.{
  Options, World, defaults, statics, copy_bytes, parse_args, init_log, init_mem, load_img, init_sdb,
  init_system, init_monitor, nemu_main,
}

-- Memory of bytes.
abbrev Bytes : (ℕ → ℕ) → Type 0
Bytes mem = (a : ℕ) → mem a < 256

copy_words-Bytes : (ws : List ℕ) (off : ℕ) (mem : ℕ → ℕ) → Bytes mem → Bytes (copy_words ws off mem)
unfolding copy_words
copy_words-Bytes [] off mem h = h
copy_words-Bytes (w ∷ ws) off mem h =
    copy_words-Bytes ws (off + 4) _ (store_bytes-AreBytes 4 mem off w h)

-- A file of bytes.
abbrev pub AreContents : List ℕ → Type 0
AreContents [] = Unit
AreContents (b ∷ bs) = (b < 256) × AreContents bs

copy_bytes-Bytes :
    (bs : List ℕ) (off : ℕ) (mem : ℕ → ℕ)
    → AreContents bs
    → Bytes mem
    → Bytes (copy_bytes bs off mem)
unfolding copy_bytes
copy_bytes-Bytes [] off mem c h = h
copy_bytes-Bytes (b ∷ bs) off mem c h =
    copy_bytes-Bytes bs (off + 1) (update mem off b) c.1 λ a. ground (arith, h a, c.0)

init_isa-IsMachine : (m : Machine) → IsMachine m → IsMachine (init_isa m)
unfolding init_isa restart
init_isa-IsMachine m k = record {
  words = λ i. ground (arith, k.words i);
  bytes = copy_words-Bytes img (guest_to_host reset_vector) m.pmem k.bytes;
}

-- The machine that an image is loaded into.
record IsReset (m : Machine) : Type 0 where
  machine : IsMachine m
  pc_lt : m.pc < u32
  zero_reg : m.gpr 0 ≡ 0

init_isa-IsReset : (m : Machine) → IsMachine m → IsReset (init_isa m)
init_isa-IsReset m k = record {
  machine = init_isa-IsMachine m k;
  pc_lt = unfold init_isa restart in omega arith;
  zero_reg = unfold init_isa restart in refl;
}

abbrev IsLoaded : ℕ × Machine → Type 0
IsLoaded r = IsReset r.1

-- The files of the host hold bytes.
abbrev pub IsWorld : World → Type 0
IsWorld world = (name bytes : List ℕ) → world.contents name ≡ some bytes → AreContents bytes

module _ (world : World) (files : IsWorld world) where
  init_mem-IsMachine : (m : Machine) → IsMachine m → IsMachine (init_mem world m)
  unfolding init_mem
  init_mem-IsMachine m k = record { words = k.words; bytes = λ a. ground (arith, k.bytes a) }

  load_img-IsReset :
      (img_file : Option (List ℕ)) (m : Machine)
      → IsReset m
      → OnOk IsLoaded (load_img world img_file m)
  unfolding load_img
  load_img-IsReset none m k = k
  load_img-IsReset (some img_file) m k = split (world.contents img_file) (files img_file)
    where
      sized :
          (bytes : List ℕ) (empty fits : Bool)
          → AreContents bytes
          → OnOk IsLoaded (
              if empty
              then fail assertion
              else (if fits
                  then ok (
                    length bytes,
                    record m { pmem = copy_bytes bytes (guest_to_host reset_vector) m.pmem },
                  )
                  else fail host_overrun))
      sized bytes true fits c = tt
      sized bytes false false c = tt
      sized bytes false true c = record {
        machine = record {
          words = k.machine.words;
          bytes = copy_bytes-Bytes bytes (guest_to_host reset_vector) m.pmem c k.machine.bytes;
        };
        pc_lt = k.pc_lt;
        zero_reg = k.zero_reg;
      }

      split :
          (file : Option (List ℕ))
          → ((bytes : List ℕ) → file ≡ some bytes → AreContents bytes)
          → OnOk IsLoaded (elim file [
            | none ↦ fail assertion
            | some bytes ↦
                (if length bytes == 0
                  then fail assertion
                  else (if leb (length bytes) msize
                      then ok (
                        length bytes,
                        record m { pmem = copy_bytes bytes (guest_to_host reset_vector) m.pmem },
                      )
                      else fail host_overrun))
          ])
      split none c = tt
      split (some bytes) c =
          sized bytes (length bytes == 0) (leb (length bytes) msize) (c bytes refl)

  init_system-IsSession :
      (o : Options) (y : System)
      → IsMachine y.machine
      → y.g_nr_guest_inst < u64
      → OnOk IsSession (init_system world o y)
  unfolding init_system init_sdb
  init_system-IsSession o y k small = on_ok IsSession (init_log world o.log_file) _ λ _ _.
      let m = init_isa (init_mem world y.machine) in
      on_ok IsSession (load_img world o.img_file m) _ λ r e.
        let reset : IsReset r.1 =
          on_ok-eq IsLoaded
            (load_img-IsReset o.img_file m (init_isa-IsReset _ (init_mem-IsMachine y.machine k)))
            e in
        record {
          system = record {
            pc_lt = reset.pc_lt;
            machine = reset.machine;
            zero_reg = reset.zero_reg;
            counter = small;
          };
          active = [];
          free = upward nr_wp 0;
          pool = init_wp_pool-IsPool y.pool.nodes;
        }

  statics-IsMachine : IsMachine statics.machine
  statics-IsMachine = record { words = λ i. omega arith; bytes = λ a. omega arith }

  abbrev Started : Option (Options × System) → Type 0
  Started none = Unit
  Started (some r) = IsSession r.1

  init_monitor-Started : (args : List (ℕ × List ℕ)) → OnOk Started (init_monitor world args statics)
  unfolding init_monitor
  init_monitor-Started args = parsed (parse_args world args defaults)
    where
      parsed :
          (p : Option Options)
          → OnOk Started (elim p [
            | none ↦ ok none
            | some o ↦ and_then (init_system world o statics) λ y'. ok (some (o, y'))
          ])
      parsed none = tt
      parsed (some o) = on_ok Started (init_system world o statics) _ λ y e.
          on_ok-eq IsSession (init_system-IsSession o statics statics-IsMachine (omega arith)) e

  abbrev Ended : Option (Bool × System × List Message) → Type 0
  Ended none = Unit
  Ended (some r) = IsSession r.1 × (r.0 ≡ is_exit_status_bad r.1.machine.nemu_state)

  ran :
      (fuel : ℕ) (lines : List (List ℕ)) (r : Option (Options × System))
      → Started r
      → OnOk Ended (elim r [
        | none ↦ ok none
        | some (o, y) ↦
            and_then
              (sdb_mainloop fuel world.host o.is_batch_mode lines y)
              λ (y', out). ok (some (is_exit_status_bad y'.machine.nemu_state, y', out))
      ])
  ran fuel lines none k = tt
  ran fuel lines (some (o, y)) k =
      on_ok Ended (sdb_mainloop fuel world.host o.is_batch_mode lines y) _
        λ (y', out) e. (sdb_mainloop-IsSession fuel world.host o.is_batch_mode lines y k e, refl)

  nemu_main-Ended :
      (fuel : ℕ) (args : List (ℕ × List ℕ)) (lines : List (List ℕ))
      → OnOk Ended (nemu_main world fuel args lines)
  unfolding nemu_main
  nemu_main-Ended fuel args lines =
      on_ok Ended (init_monitor world args statics) _
        λ r e. ran fuel lines r (on_ok-eq Started (init_monitor-Started args) e)

  -- Whatever the arguments, the image and the lines that the user enters: where main returns, the
  -- registers and pc are 32-bit words, $zero is 0, memory cells are bytes, the counter is a 64-bit
  -- number, the watchpoints are in two lists without a common node, and the exit status is that of
  -- the last state. The files of the host are taken to hold bytes.
  pub nemu_main-IsSession :
      (fuel : ℕ) (args : List (ℕ × List ℕ)) (lines : List (List ℕ)) {bad : Bool} {y : System}
      {out : List Message}
      → nemu_main world fuel args lines ≡ ok (some (bad, y, out))
      → IsSession y × (bad ≡ is_exit_status_bad y.machine.nemu_state)
  nemu_main-IsSession fuel args lines e = on_ok-eq Ended (nemu_main-Ended fuel args lines) e
