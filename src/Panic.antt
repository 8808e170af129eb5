-- ===== src/Panic.antt =====
-- kernel/core/panic.c: `halt_and_catch_fire` and `assert_failed` turn interrupts off and stop the
-- processor, so nothing runs after them. Report.Panic has the text that they print.
use mya_xos.Base.{Bool, true, false}

-- `out_of_fuel` means that a loop of the model had no round left.
pub data Outcome {ℓ} (A : Type ℓ) : Type ℓ where
  ok : A → Outcome A
  halted : Outcome A
  out_of_fuel : Outcome A

infixl 5 ◌>>=◌ ◌>>◌
abbrev pub ◌>>=◌ {ℓ κ} : {A : Type ℓ} {B : Type κ} → Outcome A → (A → Outcome B) → Outcome B
ok a >>= f = f a
halted >>= f = halted
out_of_fuel >>= f = out_of_fuel

abbrev pub ◌>>◌ {ℓ} : {B : Type ℓ} → Outcome (Unit {0}) → Outcome B → Outcome B
m >> k = m >>= λ _. k

-- `ASSERT(statement)`
abbrev pub check : Bool → Outcome (Unit {0})
check true = ok tt
check false = halted
