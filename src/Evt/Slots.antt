-- ===== src/Evt/Slots.antt =====
-- Tables of pointers, NULL where a slot is free, and the two loops that PlatIF_EVT/PlatIF_Event.c
-- runs over them. A read outside the table is a fault.
pub mod Laws
use freely_craft_codes.Prelude.{
  ℕ, zero, suc, ◌≡◌, refl, Bool, Option, none, some, List, [], ◌∷◌, get_elem?, Run, ok, fault,
  if◌then◌else◌,
}

abbrev pub Slots : Type 0 → Type 0
Slots A = List (Option A)

module _ {A : Type 0} where
  -- `for(; rounds left; idx++) if( table[idx] == NULL ) ...`: the index that the loop stops at, or
  -- `none` if it runs to its end.
  unfoldable pub find_free : ℕ → ℕ → Slots A → Run (Option ℕ)
  find_free zero idx table = ok none
  find_free (suc rounds) idx table = elim (get_elem? table idx) [
    | none ↦ fault
    | some none ↦ ok (some idx)
    | some (some a) ↦ find_free rounds (suc idx) table
  ]

  -- `for(; rounds left; idx++) if( table[idx] && test(table[idx]) ) { ...; break; }`
  unfoldable pub find_used : (A → Bool) → ℕ → ℕ → Slots A → Run (Option ℕ)
  find_used test zero idx table = ok none
  find_used test (suc rounds) idx table = elim (get_elem? table idx) [
    | none ↦ fault
    | some none ↦ find_used test rounds (suc idx) table
    | some (some a) ↦ elim (test a) [
      | Bool.true ↦ ok (some idx)
      | Bool.false ↦ find_used test rounds (suc idx) table
    ]
  ]
