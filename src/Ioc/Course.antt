-- ===== src/Ioc/Course.antt =====
-- How a post goes on: it returns, or the program aborts (`TOS_abortNotTested`), or it still waits
-- for a thread, or it has undefined behaviour.
use freely_craft_codes.Prelude.{Run, ok, fault}

pub data Course {ℓ} (A : Type ℓ) : Type ℓ where
  done : A → Course A
  aborts : Course A
  waits : Course A
  faults : Course A

infixl 5 ◌>>=◌
abbrev pub ◌>>=◌ {ℓ κ} : {A : Type ℓ} {B : Type κ} → Course A → (A → Course B) → Course B
done a >>= f = f a
aborts >>= f = aborts
waits >>= f = waits
faults >>= f = faults

abbrev pub of_run {ℓ} : {A : Type ℓ} → Run A → Course A
of_run (ok a) = done a
of_run fault = faults
