-- ===== src/MemStat/Labels.antt =====
-- Which field a line goes to.
use freely_craft_codes.Prelude.{
  ℕ, ◌≡◌, refl, Bool, true, false, ◌&&◌, some, List, ◌∷◌, ◌==◌, arith, [],
}
use freely_craft_codes.MemStat.{
  Field, of_total, of_free, of_available, of_buffers, of_cached, of_shmem, starts_with, label_of,
  field_of,
}

-- Two labels that a line may start with both.
abbrev agree : List ℕ → List ℕ → Bool
agree [] q = true
agree (x ∷ p) [] = true
agree (x ∷ p) (y ∷ q) = x == y && agree p q

exclusive :
    (p q line : List ℕ) → agree p q ≡ false → starts_with q line ≡ true → starts_with p line ≡ false
exclusive [] q line e h = cc
exclusive (x ∷ p) [] line e h = cc
exclusive (x ∷ p) (y ∷ q) [] e h = refl
exclusive (x ∷ p) (y ∷ q) (z ∷ line) e h = ground (arith, exclusive p q line)

-- A line goes to a field exactly if it starts with the field's label: no two of the labels agree, so
-- the order of the tests does not matter.
pub field_of-label :
    (f : Field) (line : List ℕ) → starts_with (label_of f) line ≡ true → field_of line ≡ some f
unfolding field_of
field_of-label of_total line h = rw h
field_of-label of_free line h = rw (exclusive (label_of of_total) (label_of of_free) line refl h, h)
field_of-label of_available line h = rw (
  exclusive (label_of of_total) (label_of of_available) line refl h,
  exclusive (label_of of_free) (label_of of_available) line refl h,
  h,
)
field_of-label of_buffers line h = rw (
  exclusive (label_of of_total) (label_of of_buffers) line refl h,
  exclusive (label_of of_free) (label_of of_buffers) line refl h,
  exclusive (label_of of_available) (label_of of_buffers) line refl h,
  h,
)
field_of-label of_cached line h = rw (
  exclusive (label_of of_total) (label_of of_cached) line refl h,
  exclusive (label_of of_free) (label_of of_cached) line refl h,
  exclusive (label_of of_available) (label_of of_cached) line refl h,
  exclusive (label_of of_buffers) (label_of of_cached) line refl h,
  h,
)
field_of-label of_shmem line h = rw (
  exclusive (label_of of_total) (label_of of_shmem) line refl h,
  exclusive (label_of of_free) (label_of of_shmem) line refl h,
  exclusive (label_of of_available) (label_of of_shmem) line refl h,
  exclusive (label_of of_buffers) (label_of of_shmem) line refl h,
  exclusive (label_of of_cached) (label_of of_shmem) line refl h,
  h,
)
