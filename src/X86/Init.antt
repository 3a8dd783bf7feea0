-- ===== src/X86/Init.antt =====
-- reg_test of ysyx-workbench/nemu/src/isa/x86/reg.c and init_isa of init.c; the k-th call of rand is a
-- parameter.
use rv32i.Base.{
  ℕ, zero, suc, ◌+◌, ◌/◌, ◌%◌, ◌^◌, Bool, true, false, ◌==◌, if◌then◌else◌, List, [], ◌∷◌, Outcome,
  ok, fail, assertion, and_then,
}
use rv32i.Machine.{update, is_running}
use rv32i.X86.State.{Cpu86, Run, pure, ◌>>=◌, ◌>>◌, reg_read, reg_write}
use rv32i.X86.Exec.{isa_exec_once}

abbrev pub assert_true : Bool → Run (Unit {0})
assert_true b c = if b then ok (tt, c) else fail assertion

-- assert(reg_b(idx) == ((v >> shift) & 0xff)), and the like for a member named by its place.
unfoldable pub test_byte : ℕ → ℕ → ℕ → Run (Unit {0})
unfolding reg_read
test_byte idx v shift = do b ← reg_read idx 1; assert_true (b == v / 2 ^ shift % 2 ^ 8)

unfoldable pub test_named : ℕ → ℕ → Run (Unit {0})
test_named i v c = assert_true (v == c.named i) c

module _ (rand : ℕ → ℕ) where
  -- rand is called for the pc first.
  abbrev pub sample : ℕ → ℕ
  sample i = rand (suc i)

  -- The loop over the registers.
  unfoldable pub sample_loop : ℕ → ℕ → Run (Unit {0})
  unfolding reg_read reg_write
  sample_loop zero i = pure tt
  sample_loop (suc rounds) i = do
    reg_write i 4 (sample i)
    w ← reg_read i 2
    assert_true (w == sample i % 2 ^ 16)
    sample_loop rounds (i + 1)

  unfoldable pub byte_tests : Run (Unit {0})
  unfolding test_byte
  byte_tests = do
    test_byte 0 (sample 0) 0
    test_byte 4 (sample 0) 8
    test_byte 3 (sample 3) 0
    test_byte 7 (sample 3) 8
    test_byte 1 (sample 1) 0
    test_byte 5 (sample 1) 8
    test_byte 2 (sample 2) 0
    test_byte 6 (sample 2) 8

  unfoldable pub named_tests : Run (Unit {0})
  unfolding test_named
  named_tests = do
    test_named 0 (sample 0)
    test_named 1 (sample 1)
    test_named 2 (sample 2)
    test_named 3 (sample 3)
    test_named 4 (sample 4)
    test_named 5 (sample 5)
    test_named 6 (sample 6)
    test_named 7 (sample 7)

  -- The last assertion, on the pc that has just been set, is the only one that cannot fail.
  unfoldable pub reg_test : Run (Unit {0})
  reg_test = do
    (λ c. ok (tt, record c { pc = rand 0 }))
    sample_loop 8 0
    byte_tests
    named_tests
    (λ c. assert_true (rand 0 == c.pc) c)

-- The built-in image, written out by the instructions of its comments.
unfoldable pub img : List ℕ
img =
    0xb8 ∷ 0x34 ∷ 0x12 ∷ 0x00 ∷ 0x00 ∷ 0xb9 ∷ 0x27 ∷ 0x00 ∷ 0x10 ∷ 0x00 ∷ 0x89 ∷ 0x01 ∷ 0x66 ∷ 0xc7
    ∷ 0x41 ∷ 0x04 ∷ 0x01 ∷ 0x00 ∷ 0xbb ∷ 0x02 ∷ 0x00 ∷ 0x00 ∷ 0x00 ∷ 0x66 ∷ 0xc7 ∷ 0x84 ∷ 0x99
    ∷ 0x00 ∷ 0xe0 ∷ 0xff ∷ 0xff ∷ 0x01 ∷ 0x00 ∷ 0xb8 ∷ 0x00 ∷ 0x00 ∷ 0x00 ∷ 0x00 ∷ 0xcc ∷ []

abbrev pub reset_vector : ℕ
reset_vector = 0x100000

-- memcpy.
unfoldable pub copy_bytes : List ℕ → ℕ → (ℕ → ℕ) → ℕ → ℕ
copy_bytes [] off mem = mem
copy_bytes (b ∷ bs) off mem = copy_bytes bs (off + 1) (update mem off b)

unfoldable pub restart : Cpu86 → Cpu86
restart c = record c { pc = reset_vector }

-- init_isa behind reg_test, which CONFIG_DETERMINISTIC leaves out.
unfoldable pub load_image : Cpu86 → Cpu86
unfolding copy_bytes restart img
load_image c = restart (record c { pmem = copy_bytes img reset_vector c.pmem })

unfoldable pub init_isa : Bool → (ℕ → ℕ) → Run (Unit {0})
unfolding reg_test load_image
init_isa deterministic rand = do
  (if deterministic then pure tt else reg_test rand)
  λ c. ok (tt, load_image c)

-- exec_once of cpu-exec.c, and the loop of execute: at most `n` instructions.
unfoldable pub exec_once : Cpu86 → Outcome Cpu86
unfolding isa_exec_once
exec_once c =
    and_then (isa_exec_once (record { pc = c.pc; snpc = c.pc; dnpc = 0; inst = λ i. 0 }) c)
      λ (s, c'). ok (record c' { pc = s.dnpc })

unfoldable pub run : ℕ → Cpu86 → Outcome Cpu86
unfolding exec_once
run zero c = ok c
run (suc n) c =
    and_then (exec_once c)
      λ c'. elim (is_running c'.nemu_state.state) [ true ↦ run n c' | false ↦ ok c' ]
