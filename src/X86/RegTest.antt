-- ===== src/X86/RegTest.antt =====
-- reg_test of ysyx-workbench/nemu/src/isa/x86/reg.c on a CPU_state whose members do not overlap.
use rv32i.Base.{
  ℕ, zero, suc, ◌+◌, ◌<◌, ◌≡◌, ◌≢◌, refl, arith, Bool, true, false, ◌==◌, if◌then◌else◌, Outcome,
  ok, fail, assertion, and_then, ◌∙◌, sym, ap,
}
use rv32i.X86.State.{Cpu86, check_reg_index, reg_read, reg_write}
use rv32i.X86.Init.{
  assert_true, test_byte, test_named, sample, sample_loop, byte_tests, named_tests, reg_test,
}

-- An assertion fails, or the members eax to edi are as before.
data Keeps (c : Cpu86) {A : Type 0} : Outcome (A × Cpu86) → Type 0 where
  kept : (a : A) (c' : Cpu86) → c'.named ≡ c.named → Keeps c (ok (a, c'))
  failed : Keeps c (fail assertion)

and_then-Keeps :
    {A B : Type 0} (c : Cpu86) {o : Outcome (A × Cpu86)} (f : A × Cpu86 → Outcome (B × Cpu86))
    → Keeps c o
    → ((a : A) (c' : Cpu86) → c'.named ≡ c.named → Keeps c (f (a, c')))
    → Keeps c (and_then o f)
and_then-Keeps c f (kept a c' e) k = k a c' e
and_then-Keeps c f failed k = failed

fails_after :
    {A B : Type 0} {c : Cpu86} {o : Outcome (A × Cpu86)} (f : A × Cpu86 → Outcome (B × Cpu86))
    → Keeps c o
    → ((a : A) (c' : Cpu86) → c'.named ≡ c.named → f (a, c') ≡ fail assertion)
    → and_then o f ≡ fail assertion
fails_after f (kept a c' e) k = k a c' e
fails_after f failed k = refl

if-Keeps :
    {A : Type 0} (c : Cpu86) (b : Bool) {x y : Outcome (A × Cpu86)}
    → Keeps c x
    → Keeps c y
    → Keeps c (if b then x else y)
if-Keeps c true h k = h
if-Keeps c false h k = k

reg_read-Keeps : (d : Cpu86) (i w : ℕ) (c : Cpu86) → c.named ≡ d.named → Keeps d (reg_read i w c)
unfolding reg_read check_reg_index
reg_read-Keeps d i w c e = search (and_then-Keeps, if-Keeps, kept, failed) depth 12

reg_write-Keeps :
    (d : Cpu86) (i w v : ℕ) (c : Cpu86) → c.named ≡ d.named → Keeps d (reg_write i w v c)
unfolding reg_write check_reg_index
reg_write-Keeps d i w v c e = search (and_then-Keeps, if-Keeps, kept, failed) depth 12

assert_true-Keeps :
    (d : Cpu86) (b : Bool) (c : Cpu86) → c.named ≡ d.named → Keeps d (assert_true b c)
assert_true-Keeps d b c e = if-Keeps d b (kept tt c e) failed

ruleset keeping = (and_then-Keeps, reg_read-Keeps, reg_write-Keeps, assert_true-Keeps, kept)

module _ (rand : ℕ → ℕ) where
  sample_loop-Keeps :
      (d : Cpu86) (rounds i : ℕ) (c : Cpu86)
      → c.named ≡ d.named
      → Keeps d (sample_loop rand rounds i c)
  unfolding sample_loop
  sample_loop-Keeps d zero i c e = kept tt c e
  sample_loop-Keeps d (suc rounds) i c e =
      search (keeping, sample_loop-Keeps d rounds (i + 1)) depth 12

  byte_tests-Keeps : (d c : Cpu86) → c.named ≡ d.named → Keeps d (byte_tests rand c)
  unfolding byte_tests test_byte
  byte_tests-Keeps d c e = search keeping depth 40

  named_tests-fail :
      (i : ℕ) (c : Cpu86) → i < 8 → c.named i ≢ sample rand i → named_tests rand c ≡ fail assertion
  unfolding named_tests test_named
  named_tests-fail i c small other = ground arith

  -- The struct of gpr and the members eax to edi are apart, so reg_test stops the emulator as soon
  -- as a random number differs from what stands in the member of its register before the test.
  pub reg_test-fails :
      (i : ℕ) (c : Cpu86) → i < 8 → c.named i ≢ sample rand i → reg_test rand c ≡ fail assertion
  unfolding reg_test
  reg_test-fails i c small other =
      let d : Cpu86 = record c { pc = rand 0 } in
      fails_after _ (sample_loop-Keeps d 8 0 d refl) λ a c' e.
        fails_after _ (byte_tests-Keeps d c' e) λ a' c'' e'.
          ap (λ o. and_then o (λ (u, k). assert_true (rand 0 == k.pc) k))
            (named_tests-fail i c'' small (λ same. other (ap (λ f. f i) (sym e') ∙ same)))
