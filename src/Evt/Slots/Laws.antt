-- ===== src/Evt/Slots/Laws.antt =====
-- The loops over a table find the first slot of the wanted kind, by plain recursion on the table.
use freely_craft_codes.Prelude.{
  ℕ, zero, suc, ◌<◌, ◌≡◌, refl, ◌≢◌, Bool, true, false, Option, none, some, [], ◌∷◌, get_elem?,
  length, replicate, Run, ok, fault, if◌then◌else◌, arith,
}
use freely_craft_codes.Evt.Slots.{Slots, find_free, find_used}

-- A result about the table behind its first slot, as one about the whole table.
abbrev behind_first : Run (Option ℕ) → Run (Option ℕ)
behind_first (ok none) = ok none
behind_first (ok (some i)) = ok (some (suc i))
behind_first fault = fault

abbrev next_index : Option ℕ → Option ℕ
next_index none = none
next_index (some i) = some (suc i)

module _ {A : Type 0} where
  -- The first free slot.
  abbrev pub first_free : Slots A → Option ℕ
  first_free [] = none
  first_free (none ∷ table) = some 0
  first_free (some a ∷ table) = next_index (first_free table)

  -- The first slot whose entry passes the test.
  abbrev pub first_used : (A → Bool) → Slots A → Option ℕ
  first_used test [] = none
  first_used test (none ∷ table) = next_index (first_used test table)
  first_used test (some a ∷ table) = if test a then some 0 else next_index (first_used test table)

  find_free-cons :
      (n i : ℕ) (slot : Option A) (table : Slots A)
      → find_free n (suc i) (slot ∷ table) ≡ behind_first (find_free n i table)
  unfolding find_free
  find_free-cons zero i slot table = refl
  find_free-cons (suc n) i slot table = ground (arith, find_free-cons n (suc i) slot table)

  find_used-cons :
      (test : A → Bool) (n i : ℕ) (slot : Option A) (table : Slots A)
      → find_used test n (suc i) (slot ∷ table) ≡ behind_first (find_used test n i table)
  unfolding find_used
  find_used-cons test zero i slot table = refl
  find_used-cons test (suc n) i slot table =
      ground (arith, find_used-cons test n (suc i) slot table)

  -- A loop as long as the table finds the first free slot.
  pub find_free_whole :
      (n : ℕ) (table : Slots A) → length table ≡ n → find_free n 0 table ≡ ok (first_free table)
  unfolding find_free
  find_free_whole n [] e = rw (← e)
  find_free_whole zero (x ∷ table) e = absurd (omega arith)
  find_free_whole (suc n) (none ∷ table) e = refl
  find_free_whole (suc n) (some a ∷ table) e =
      ground (arith, find_free-cons n 0 (some a) table, find_free_whole n table)

  -- A loop one round longer reads past the end of a full table.
  pub find_free_beyond :
      (n : ℕ) (table : Slots A)
      → length table ≡ n
      → find_free (suc n) 0 table ≡ elim (first_free table) [ none ↦ fault | some i ↦ ok (some i) ]
  unfolding find_free
  find_free_beyond n [] e = refl
  find_free_beyond zero (x ∷ table) e = absurd (omega arith)
  find_free_beyond (suc n) (none ∷ table) e = refl
  find_free_beyond (suc n) (some a ∷ table) e =
      ground (arith, find_free-cons (suc n) 0 (some a) table, find_free_beyond n table)

  pub find_used_whole :
      (test : A → Bool) (n : ℕ) (table : Slots A)
      → length table ≡ n
      → find_used test n 0 table ≡ ok (first_used test table)
  unfolding find_used
  find_used_whole test n [] e = rw (← e)
  find_used_whole test zero (x ∷ table) e = absurd (omega arith)
  find_used_whole test (suc n) (none ∷ table) e =
      ground (arith, find_used-cons test n 0 none table, find_used_whole test n table)
  find_used_whole test (suc n) (some a ∷ table) e =
      ground (arith, find_used-cons test n 0 (some a) table, find_used_whole test n table)

  -- What a found index says of the table.
  pub first_free-get :
      (table : Slots A) (i : ℕ)
      → first_free table ≡ some i
      → (get_elem? table i ≡ some none) × (i < length table)
  first_free-get [] i e = cc
  first_free-get (none ∷ table) zero e = (refl, omega arith)
  first_free-get (none ∷ table) (suc i) e = cc
  first_free-get (some a ∷ table) zero e = ground arith
  first_free-get (some a ∷ table) (suc i) e = ground (arith, first_free-get table i)

  pub first_used-get :
      (test : A → Bool) (table : Slots A) (i : ℕ)
      → first_used test table ≡ some i
      → (a : A) × (get_elem? table i ≡ some (some a)) × (test a ≡ true)
  first_used-get test [] i e = cc
  first_used-get test (none ∷ table) zero e = absurd (ground arith)
  first_used-get test (none ∷ table) (suc i) e = first_used-get test table i (ground arith)
  first_used-get test (some a ∷ table) zero e = (a, refl, ground arith)
  first_used-get test (some a ∷ table) (suc i) e = first_used-get test table i (ground arith)

  -- Where nothing is found, no entry passes the test.
  pub first_used-none :
      (test : A → Bool) (table : Slots A) (i : ℕ) (a : A)
      → first_used test table ≡ none
      → get_elem? table i ≡ some (some a)
      → test a ≡ false
  first_used-none test [] i a e h = cc
  first_used-none test (none ∷ table) zero a e h = cc
  first_used-none test (none ∷ table) (suc i) a e h =
      first_used-none test table i a (ground arith) h
  first_used-none test (some b ∷ table) zero a e h = ground arith
  first_used-none test (some b ∷ table) (suc i) a e h =
      first_used-none test table i a (ground arith) h

  -- A full table has no NULL.
  pub first_free-none :
      (table : Slots A) (i : ℕ) → first_free table ≡ none → get_elem? table i ≢ some none
  first_free-none [] i e h = cc
  first_free-none (none ∷ table) i e h = cc
  first_free-none (some b ∷ table) zero e h = ground arith
  first_free-none (some b ∷ table) (suc i) e h = first_free-none table i (ground arith) h

  -- No entry before the first that passes the test does.
  pub first_used-before :
      (test : A → Bool) (table : Slots A) (i j : ℕ) (a : A)
      → first_used test table ≡ some i
      → j < i
      → get_elem? table j ≡ some (some a)
      → test a ≡ false
  first_used-before test [] i j a e h read = cc
  first_used-before test (x ∷ table) zero j a e h read = absurd (omega arith)
  first_used-before test (none ∷ table) (suc i) zero a e h read = cc
  first_used-before test (none ∷ table) (suc i) (suc j) a e h read =
      first_used-before test table i j a (ground arith) (omega arith) read
  first_used-before test (some b ∷ table) (suc i) zero a e h read = ground arith
  first_used-before test (some b ∷ table) (suc i) (suc j) a e h read =
      first_used-before test table i j a (ground arith) (omega arith) read

-- A new table has no entries.
pub no_entries : {A : Type 0} (max i : ℕ) (a : A) → get_elem? (replicate max none) i ≢ some (some a)
no_entries zero i a e = cc
no_entries (suc max) zero a e = cc
no_entries (suc max) (suc i) a e = no_entries max i a e
