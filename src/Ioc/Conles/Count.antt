-- ===== src/Ioc/Conles/Count.antt =====
-- The count of subscribers, and where the search for one stops.
use freely_craft_codes.Prelude.{
  ℕ, zero, suc, ◌+◌, ◌≤◌, ◌<◌, ◌^◌, ◌≡◌, refl, ap, Bool, true, Option, none, some, List, ◌∷◌, Run,
  ok, fault, get_elem?, set, length, length-replicate, replicate, if◌then◌else◌, arith, [],
}
use freely_craft_codes.Ioc.Conles.{Suber, Context, lock, unlock, zero_suber, is_free, find_suber}

abbrev pub one_if_used : Suber → ℕ
one_if_used suber = if is_free suber then 0 else 1

-- How many places are taken.
abbrev pub used : List Suber → ℕ
used [] = 0
used (suber ∷ subers) = one_if_used suber + used subers

abbrev next : Option ℕ → Option ℕ
next none = none
next (some i) = some (suc i)

abbrev pub first_suber : (Suber → Bool) → List Suber → Option ℕ
first_suber test [] = none
first_suber test (suber ∷ subers) = if test suber then some 0 else next (first_suber test subers)

abbrev behind : Run (Option ℕ) → Run (Option ℕ)
behind (ok i) = ok (next i)
behind fault = fault

find_suber-cons :
    (test : Suber → Bool) (n i : ℕ) (suber : Suber) (subers : List Suber)
    → find_suber test n (suc i) (suber ∷ subers) ≡ behind (find_suber test n i subers)
unfolding find_suber
find_suber-cons test zero i suber subers = refl
find_suber-cons test (suc n) i suber subers =
    ground (arith, find_suber-cons test n (suc i) suber subers)

pub find_suber_whole :
    (test : Suber → Bool) (n : ℕ) (subers : List Suber)
    → length subers ≡ n
    → find_suber test n 0 subers ≡ ok (first_suber test subers)
unfolding find_suber
find_suber_whole test n [] e = rw (← e)
find_suber_whole test zero (x ∷ subers) e = absurd (omega arith)
find_suber_whole test (suc n) (x ∷ subers) e =
    ground (arith, find_suber-cons test n 0 x subers, find_suber_whole test n subers)

pub first_suber-get :
    (test : Suber → Bool) (subers : List Suber) (i : ℕ)
    → first_suber test subers ≡ some i
    → (suber : Suber) × (get_elem? subers i ≡ some suber) × (test suber ≡ true)
first_suber-get test [] i e = cc
first_suber-get test (x ∷ subers) zero e = (x, refl, ground arith)
first_suber-get test (x ∷ subers) (suc i) e = first_suber-get test subers i (ground arith)

-- If no place is free, all are taken.
pub all_used :
    (subers : List Suber) → first_suber is_free subers ≡ none → used subers ≡ length subers
all_used [] e = refl
all_used (x ∷ subers) e = ground (arith, all_used subers)

pub used_le : (subers : List Suber) → used subers ≤ length subers
used_le [] = omega arith
used_le (x ∷ subers) = ground (arith, used_le subers)

pub used-set :
    (subers : List Suber) (i : ℕ) (old new : Suber)
    → get_elem? subers i ≡ some old
    → used (set subers i new) + one_if_used old ≡ used subers + one_if_used new
used-set [] i old new e = cc
used-set (x ∷ subers) zero old new e = ground arith
used-set (x ∷ subers) (suc i) old new e = omega (arith, used-set subers i old new e)

used-new : (n : ℕ) → used (replicate n zero_suber) ≡ 0
used-new zero = refl
used-new (suc n) = omega (arith, used-new n)

-- The table has its size, and the counter says how many places are taken.
pub record IsCounted (max cur : ℕ) (subers : List Suber) : Type 0 where
  pub sized : length subers ≡ max
  pub counted : used subers ≡ cur

abbrev pub IsCounted? : ℕ → ℕ → Option (List Suber) → Type 0
IsCounted? max cur none = cur ≡ 0
IsCounted? max cur (some subers) = IsCounted max cur subers

pub record IsValid (c : Context) : Type 0 where
  pub small : c.max_suber_num < 2 ^ 64
  pub subers : IsCounted? c.max_suber_num c.cur_suber_num c.evt_subers

pub new-IsCounted : (max : ℕ) → IsCounted max 0 (replicate max zero_suber)
new-IsCounted max = record { sized = length-replicate max zero_suber; counted = used-new max }

pub unlock-lock : (c : Context) → unlock (lock c) ≡ c
unlock-lock c = ap (λ n. record c { mutex_depth = n }) (omega arith)
