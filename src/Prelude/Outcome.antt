-- ===== src/Prelude/Outcome.antt =====
-- What a piece of C does: it returns a value, or it has undefined behaviour (a dereference of NULL
-- or an access outside an object), called a fault here.
use mathlib.Core.Path.{◌≡◌, refl}
use mathlib.Core.Option.{Option, none, some}

pub data Run {ℓ} (A : Type ℓ) : Type ℓ where
  ok : A → Run A
  fault : Run A

-- `abbrev`, so that a bind computes wherever its first part does.
infixl 5 ◌>>=◌
abbrev pub ◌>>=◌ {ℓ κ} : {A : Type ℓ} {B : Type κ} → Run A → (A → Run B) → Run B
ok a >>= f = f a
fault >>= f = fault

-- A pointer or an array read that must not be absent.
abbrev pub or_fault {ℓ} : {A : Type ℓ} → Option A → Run A
or_fault none = fault
or_fault (some a) = ok a

pub ok-injective {ℓ} : {A : Type ℓ} {a b : A} → ok a ≡ ok b → a ≡ b
ok-injective e = cc

pub fault-ne-ok {ℓ} : {A : Type ℓ} {a : A} → fault ≡ ok a → ⊥
fault-ne-ok e = cc

-- Where a bind ends well, so do its parts.
pub bind-ok {ℓ κ} :
    {A : Type ℓ} {B : Type κ} (x : Run A) (f : A → Run B) (b : B)
    → (x >>= f) ≡ ok b
    → (a : A) × (x ≡ ok a) × (f a ≡ ok b)
bind-ok (ok a) f b e = (a, refl, e)
bind-ok fault f b e = absurd (fault-ne-ok e)
