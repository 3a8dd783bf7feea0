-- ===== src/AbstractMachine/Panic.antt =====
-- What panic of ysyx-workbench/abstract-machine/klib/include/klib-macros.h comes to on the emulator's
-- devices.
use rv32i.Base.{
  ℕ, ◌%◌, ◌≡◌, refl, arith, Bool, true, ◌==◌, ◌&&◌, not, ltb, List, [], ◌∷◌, ◌++◌, reverse_aux, ap,
  ◌∙◌, sym, Outcome, ok, then_ok, codes,
}
use rv32i.Machine.{Machine, NemuState, RunState, update, is_exit_status_bad}
use rv32i.Word.{u32}
use rv32i.Device.{Devices}
use rv32i.AbstractMachine.{Guest, putstr, halt, panic, trm_init, panic_place}
use rv32i.AbstractMachine.Serial.{HasSerial, AreChars, IsPrinted, putstr-IsPrinted}

reverse_aux-append :
    (s t out : List ℕ) → reverse_aux (s ++ t) out ≡ reverse_aux t (reverse_aux s out)
reverse_aux-append [] t out = refl
reverse_aux-append (c ∷ s) t out = reverse_aux-append s t (c ∷ out)

AreChars-append : (s t : List ℕ) → AreChars s → AreChars t → AreChars (s ++ t)
AreChars-append [] t cs ct = ct
AreChars-append (c ∷ s) t (pos, lt, cs) ct = (pos, lt, AreChars-append s t cs ct)

-- The text of a panic in the file `file`, in the line `line`.
abbrev pub panic_text : List ℕ → List ℕ → List ℕ → List ℕ
panic_text s file line = codes "AM Panic: " ++ (s ++ panic_place file line)

abbrev pub ended : ℕ → ℕ → NemuState
ended trap_pc code = record { state = RunState.end; halt_pc = trap_pc; halt_ret = code }

-- The run behind a panic: the text is on the serial port, and the emulator has stopped with the exit
-- code 1 of the guest.
pub record IsPanic (trap_pc : ℕ) (text : List ℕ) (d : Devices) (o : Outcome Guest) : Type 0 where
  pub machine : Machine
  pub devices : Devices
  pub outcome : o ≡ ok (machine, devices)
  pub text_shown : devices.output ≡ reverse_aux text d.output
  pub exit : machine.nemu_state ≡ ended trap_pc 1
  pub bad : is_exit_status_bad machine.nemu_state ≡ true

abbrev are_chars : List ℕ → Bool
are_chars [] = true
are_chars (c ∷ s) = ltb 0 c && (ltb c 256 && are_chars s)

pub literal : (s : List ℕ) → are_chars s ≡ true → AreChars s
literal [] e = tt
literal (c ∷ s) e = (ground (arith, e), ground (arith, e), literal s (ground (arith, e)))

module _ (clock : ℕ → ℕ) (trap_pc : ℕ) where
  -- Where main returns, the run ends at the trap instruction with what it returned as the exit code,
  -- and the exit is good if and only if that is 0.
  trm_init-ended :
      (main : List ℕ → Guest → Outcome (ℕ × Guest)) (mainargs : List ℕ) (g : Guest) (ret : ℕ)
      (m : Machine) (d : Devices)
      → main mainargs g ≡ ok (ret, (m, d))
      → (m' : Machine) × (trm_init clock trap_pc main mainargs g ≡ ok (m', d))
        × (m'.nemu_state ≡ ended trap_pc (ret % u32))
        × (is_exit_status_bad m'.nemu_state ≡ not (ret % u32 == 0))
  unfolding trm_init halt is_exit_status_bad
  trm_init-ended main mainargs g ret m d e = (_, then_ok _ e, refl, ground arith)

  pub panic-IsPanic :
      (s file line : List ℕ) (m : Machine) (d : Devices)
      → AreChars s
      → AreChars file
      → AreChars line
      → HasSerial d
      → IsPanic trap_pc
          (panic_text s file line)
          d
          (panic clock trap_pc s (panic_place file line) (m, d))
  unfolding panic halt is_exit_status_bad
  panic-IsPanic s file line m d cs cf cl h = record {
    machine = stopped m;
    devices = third.0;
    outcome = then_ok _ first.1 ∙ then_ok _ second.1 ∙ then_ok _ third.1;
    text_shown =
        third.2.output
        ∙ ap (reverse_aux (panic_place file line))
            (second.2.output ∙ ap (reverse_aux s) first.2.output)
        ∙ sym whole;
    exit = refl;
    bad = refl;
  }
    where
      place : AreChars (panic_place file line)
      place = AreChars-append (codes " @ ") _ (literal (codes " @ ") refl) (
          AreChars-append file _ cf (
            AreChars-append (codes ":") _ (literal (codes ":") refl)
              (AreChars-append line _ cl (literal (codes "  " ++ (10 ∷ [])) refl))))

      whole :
          reverse_aux (panic_text s file line) d.output
          ≡ reverse_aux
              (panic_place file line)
              (reverse_aux s (reverse_aux (codes "AM Panic: ") d.output))
      whole =
          reverse_aux-append (codes "AM Panic: ") (s ++ panic_place file line) d.output
          ∙ reverse_aux-append s (panic_place file line) (reverse_aux (codes "AM Panic: ") d.output)

      first :
          (d₁ : Devices) × (putstr clock (codes "AM Panic: ") (m, d) ≡ ok (m, d₁))
          × IsPrinted (codes "AM Panic: ") d d₁
      first = putstr-IsPrinted clock (codes "AM Panic: ") m d (literal (codes "AM Panic: ") refl) h

      second : (d₂ : Devices) × (putstr clock s (m, first.0) ≡ ok (m, d₂)) × IsPrinted s first.0 d₂
      second = putstr-IsPrinted clock s m first.0 cs first.2.serial

      third :
          (d₃ : Devices) × (putstr clock (panic_place file line) (m, second.0) ≡ ok (m, d₃))
          × IsPrinted (panic_place file line) second.0 d₃
      third = putstr-IsPrinted clock (panic_place file line) m second.0 place second.2.serial

      stopped : Machine → Machine
      stopped m = record m { gpr = update m.gpr 10 1; nemu_state = ended trap_pc 1 }
