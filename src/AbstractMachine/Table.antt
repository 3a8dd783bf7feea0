-- ===== src/AbstractMachine/Table.antt =====
-- What an access to a register of the abstract machine comes to, once ioe_init of
-- ysyx-workbench/abstract-machine/am/src/platform/nemu/ioe/ioe.c has filled its table.
use rv32i.Base.{
  ℕ, zero, suc, ◌+◌, ◌≤◌, ◌<◌, ◌≡◌, refl, arith, true, false, ◌==◌, ltb, List, ap, ◌∙◌, Bool-cases,
  subst, sym, ==_iff, ==_self, ◌⊎◌, inl, inr, Option, none, some, Outcome, ok, and_then, codes,
}
use rv32i.Machine.{Machine}
use rv32i.Device.{Devices}
use rv32i.AbstractMachine.{Guest, panic, panic_place}
use rv32i.AbstractMachine.Ioe.{
  call_handler, fill_place, Buffer, Handler, Lut, fill_lut, fail_line, lut_length, fail_handler,
  initial_lut, ioe_init, ioe_read, ioe_write,
}
use rv32i.AbstractMachine.Serial.{HasSerial, AreChars}
use rv32i.AbstractMachine.Panic.{IsPanic, panic_text, literal, panic-IsPanic}

fill_place-keeps :
    (o : Option Handler) (i : ℕ) (h : Handler) (lut : Lut) (j : ℕ) (f : Handler)
    → lut i ≡ o
    → lut j ≡ some f
    → fill_place o i h lut j ≡ some f
unfolding fill_place
fill_place-keeps none i h lut j f at e = elim (Bool-cases (i == j)) [
  | inl same ↦ let one : i ≡ j = (==_iff i j).0 same in cc
  | inr apart ↦ rw apart e
]
fill_place-keeps (some g) i h lut j f at e = e

fill_place-fills :
    (o : Option Handler) (i : ℕ) (h : Handler) (lut : Lut)
    → lut i ≡ o
    → o ≡ none
    → fill_place o i h lut i ≡ some h
unfolding fill_place
fill_place-fills none i h lut at e = rw (==_self i) refl
fill_place-fills (some g) i h lut at e = cc

fill_place-other :
    (o : Option Handler) (i : ℕ) (h : Handler) (lut : Lut) (j : ℕ)
    → (i == j) ≡ false
    → fill_place o i h lut j ≡ lut j
unfolding fill_place
fill_place-other none i h lut j apart = rw apart
fill_place-other (some g) i h lut j apart = refl

fill_lut-keeps :
    (n i : ℕ) (h : Handler) (lut : Lut) (j : ℕ) (f : Handler)
    → lut j ≡ some f
    → fill_lut n i h lut j ≡ some f
unfolding fill_lut
fill_lut-keeps zero i h lut j f e = e
fill_lut-keeps (suc n) i h lut j f e =
    fill_lut-keeps n (i + 1) h _ j f (fill_place-keeps (lut i) i h lut j f refl e)

fill_lut-fills :
    (n i : ℕ) (h : Handler) (lut : Lut) (j : ℕ)
    → i ≤ j
    → j < i + n
    → lut j ≡ none
    → fill_lut n i h lut j ≡ some h
unfolding fill_lut
fill_lut-fills zero i h lut j from to e = absurd (omega arith)
fill_lut-fills (suc n) i h lut j from to e = elim (Bool-cases (i == j)) [
  | inl same ↦
      let one : i ≡ j = (==_iff i j).0 same in
      fill_lut-keeps n (i + 1) h _ j h (
        subst (λ k. fill_place (lut i) i h lut k ≡ some h) one
          (fill_place-fills (lut i) i h lut refl (subst (λ k. lut k ≡ none) (sym one) e)))
  | inr apart ↦
      fill_lut-fills n (i + 1) h _ j (ground (arith, apart)) (omega arith)
        (fill_place-other (lut i) i h lut j apart ∙ e)
]

module _ (clock : ℕ → ℕ) (trap_pc : ℕ) (file : List ℕ) where
  abbrev pub filled_lut : Lut
  filled_lut = ioe_init clock trap_pc file (initial_lut clock trap_pc file)

  -- The access is answered by the handler that the source's table names for the register, or ends in
  -- the panic of a register that does not exist.
  abbrev pub IsAnswer : ℕ → Buffer → Machine → Devices → Outcome (Buffer × Guest) → Type 0
  IsAnswer reg buf m d o =
      ((h : Handler) × (initial_lut clock trap_pc file reg ≡ some h) × (o ≡ h buf (m, d)))
      ⊎ ((initial_lut clock trap_pc file reg ≡ none)
          × IsPanic trap_pc (panic_text (codes "access nonexist register") file fail_line) d
              (and_then o λ (_, g). ok g))

  module _ (reg : ℕ) (buf : Buffer) (m : Machine) (d : Devices) (lt : reg < lut_length)
      (cs : AreChars file) (h : HasSerial d) where
    call_handler-IsAnswer :
        (o : Option Handler)
        → initial_lut clock trap_pc file reg ≡ o
        → IsAnswer reg buf m d (call_handler (filled_lut reg) buf (m, d))
    unfolding ioe_init fail_handler call_handler
    call_handler-IsAnswer none e = inr (
      e,
      record {
        machine = p.machine;
        devices = p.devices;
        outcome =
            ap (λ f. seen (call_handler f buf (m, d))) filled
            ∙ ap (λ o. seen (and_then o λ g. ok (buf, g))) p.outcome;
        text_shown = p.text_shown;
        exit = p.exit;
        bad = p.bad;
      },
    )
      where
        seen : Outcome (Buffer × Guest) → Outcome Guest
        seen o = and_then o λ (_, g). ok g

        filled : filled_lut reg ≡ some (fail_handler clock trap_pc file)
        filled =
            fill_lut-fills lut_length 0 (fail_handler clock trap_pc file)
              (initial_lut clock trap_pc file) reg (omega arith) lt e

        p : IsPanic trap_pc (panic_text (codes "access nonexist register") file fail_line) d (
            panic clock trap_pc
              (codes "access nonexist register")
              (panic_place file fail_line)
              (m, d))
        p =
            panic-IsPanic clock trap_pc (codes "access nonexist register") file fail_line m d
              (literal (codes "access nonexist register") refl) cs (literal fail_line refl) h
    call_handler-IsAnswer (some f) e = inl (
      f,
      e,
      ap (λ f. call_handler f buf (m, d))
          (fill_lut-keeps lut_length 0 (fail_handler clock trap_pc file)
            (initial_lut clock trap_pc file) reg f e),
    )

    -- Once ioe_init has filled the table, a read and a write of any of the 128 registers both come to
    -- this: the handler that the source's table names for it runs on the buffer, or, where the table
    -- names none, the text of the panic is on the serial port, behind what was there, and the
    -- emulator's run has ended at the trap instruction with the exit code 1, a bad exit. The serial
    -- port is registered at the address of the guest's programs, and the name of the source file has
    -- no terminator in it.
    pub register-IsAnswer :
        IsAnswer reg buf m d (ioe_read reg filled_lut buf (m, d))
        × IsAnswer reg buf m d (ioe_write reg filled_lut buf (m, d))
    unfolding ioe_read ioe_write
    register-IsAnswer =
        let inside : ltb reg lut_length ≡ true = ground (arith, lt) in
        let answer = call_handler-IsAnswer (initial_lut clock trap_pc file reg) refl in
        rw inside (answer, answer)
