-- ===== src/Difftest/CatchUp.antt =====
-- Skipping instructions until the emulator has caught up with the reference.
use rv32i.Base.{
  ℕ, ◌≡◌, Bool, false, ◌==◌, if◌then◌else◌, List, [], ◌∷◌, Outcome, ok, fail, assertion,
}
use rv32i.Machine.{Machine}
use rv32i.Difftest.{Reference, Dut, checkregs}

-- No instruction of the run leads to `target`.
abbrev pub AreElsewhere : ℕ → List (ℕ × ℕ × Machine) → Type 0
AreElsewhere target [] = Unit
AreElsewhere target ((pc, npc, m) ∷ ps) = ((target == npc) ≡ false) × AreElsewhere target ps

module _ {S : Type 0} (r : Reference S) where
  -- The emulator with fewer instructions to skip.
  abbrev pub skipping : Dut S → ℕ → Dut S
  skipping d n = record d { skip_dut_nr_inst = n }

  -- What is left to do once the reference's pc is compared with the next one.
  abbrev caught : Dut S → ℕ → ℕ → Bool → Outcome (Dut S)
  caught d k npc b =
      if b
      then ok (record d {
        skip_dut_nr_inst = 0;
        machine = checkregs (r.regcpy_to_dut d.ref) npc d.machine;
      })
      else (if k == 0 then fail assertion else ok (skipping d k))
