-- ===== src/Base/Result.antt =====
-- What a run of the C code comes to: a value, or one of the ways in which the program stops.
use Prim.Native.Nat.{ℕ}
use mathlib.Core.Path.{ap, subst, ◌≡◌, refl}

pub data Fault : Type 0 where
  -- `panic` of out_of_bound, with the address
  out_of_bound : ℕ → Fault
  -- a failed `assert` or `Assert`
  assertion : Fault
  -- an access of the host beyond its array: undefined in C
  host_overrun : Fault
  -- a division that C leaves undefined, and that stops the host
  host_divide : Fault
  -- halt(code) of a guest program
  halted : ℕ → Fault
  -- the model's own: a loop has used up its fuel
  out_of_fuel : Fault

pub data Outcome {ℓ} (A : Type ℓ) : Type ℓ where
  ok : A → Outcome A
  fail : Fault → Outcome A

abbrev pub and_then {ℓ κ} : {A : Type ℓ} {B : Type κ} → Outcome A → (A → Outcome B) → Outcome B
and_then (ok a) f = f a
and_then (fail e) f = fail e

pub then_ok {ℓ κ} :
    {A : Type ℓ} {B : Type κ} {o : Outcome A} {a : A} (f : A → Outcome B)
    → o ≡ ok a
    → and_then o f ≡ f a
then_ok f e = ap (λ o. and_then o f) e

pub and_then-eq-ok {ℓ κ} :
    {A : Type ℓ} {B : Type κ} (m : Outcome A) (f : A → Outcome B) {b : B}
    → and_then m f ≡ ok b
    → (a : A) × (m ≡ ok a) × (f a ≡ ok b)
and_then-eq-ok (ok a) f h = (a, refl, h)
and_then-eq-ok (fail e) f h = cc

-- A predicate on the result, where there is one.
abbrev pub OnOk {ℓ κ} : {A : Type ℓ} → (A → Type κ) → Outcome A → Type κ
OnOk P (ok a) = P a
OnOk P (fail e) = Unit

pub on_ok {ℓ κ ι} :
    {A : Type ℓ} {B : Type κ} (P : B → Type ι) (m : Outcome A) (f : A → Outcome B)
    → ((a : A) → m ≡ ok a → OnOk P (f a))
    → OnOk P (and_then m f)
on_ok P (ok a) f h = h a refl
on_ok P (fail e) f h = tt

pub on_ok-eq {ℓ ι} :
    {A : Type ℓ} (P : A → Type ι) {m : Outcome A} {a : A} → OnOk P m → m ≡ ok a → P a
on_ok-eq P h e = subst (OnOk P) e h
