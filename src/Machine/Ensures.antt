-- ===== src/Machine/Ensures.antt =====
-- Partial correctness of a command: what holds wherever it returns.
use rv32i.Base.{
  ◌≡◌, refl, Bool, true, false, if◌then◌else◌, Outcome, ok, fail, Fault, and_then, subst,
}
use rv32i.Machine.{Machine}

pub data Ensures {A : Type 0} (P : A → Machine → Type 0) : Outcome (A × Machine) → Type 0 where
  returned : {a : A} {m : Machine} → P a m → Ensures P (ok (a, m))
  failed : {e : Fault} → Ensures P (fail e)

module _ {A : Type 0} {P : A → Machine → Type 0} where
  pub bind :
      {B : Type 0} {Q : B → Machine → Type 0} {r : Outcome (A × Machine)}
      (k : A × Machine → Outcome (B × Machine))
      → Ensures P r
      → ((a : A) (m : Machine) → P a m → Ensures Q (k (a, m)))
      → Ensures Q (and_then r k)
  bind k (returned p) next = next _ _ p
  bind k failed next = failed

  -- A choice between two runs.
  pub either :
      (b : Bool) {r s : Outcome (A × Machine)}
      → (b ≡ true → Ensures P r)
      → (b ≡ false → Ensures P s)
      → Ensures P (if b then r else s)
  either true f g = f refl
  either false f g = g refl

  -- A value that a computation without state has, or a failure.
  pub value :
      {B : Type 0} (o : Outcome B) {k : B → Outcome (A × Machine)}
      → ((b : B) → o ≡ ok b → Ensures P (k b))
      → Ensures P (and_then o k)
  value (ok b) next = next b refl
  value (fail e) next = failed

pub of_eq :
    {A : Type 0} {P : A → Machine → Type 0} (r : Outcome (A × Machine))
    → ((a : A) (m : Machine) → r ≡ ok (a, m) → P a m)
    → Ensures P r
of_eq (ok (a, m)) f = returned (f a m refl)
of_eq (fail e) f = failed

Holds : {A : Type 0} → (A → Machine → Type 0) → Outcome (A × Machine) → Type 0
Holds P (ok (a, m)) = P a m
Holds P (fail e) = Unit

whole :
    {A : Type 0} {P : A → Machine → Type 0} {r : Outcome (A × Machine)} → Ensures P r → Holds P r
unfolding Holds
whole (returned p) = p
whole failed = tt

pub holds :
    {A : Type 0} {P : A → Machine → Type 0} {r : Outcome (A × Machine)} {a : A} {m : Machine}
    → Ensures P r
    → r ≡ ok (a, m)
    → P a m
unfolding Holds
holds {P} en e = subst (Holds P) e (whole en)
