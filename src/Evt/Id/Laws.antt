-- ===== src/Evt/Id/Laws.antt =====
-- What an event id holds, and which ids a subscription selects.
use freely_craft_codes.Prelude.{
  ℕ, ◌+◌, ◌*◌, ◌/◌, ◌%◌, ◌^◌, ◌<◌, ◌≡◌, refl, bit_and, false, not, ◌&&◌, ◌==◌, arith, ℕ_discrete,
}
use freely_craft_codes.Prelude.Bits.{
  bit_and_mask, bit_or_fields, bit_and_single, bit_and_self, bit_and_comm, zero-bit_and,
}
use native.Mathlib.Nat.{one-le-pow, pow-suc, pow-le-pow_right, mod-eq_of_lt}
use freely_craft_codes.Evt.Id.{
  make_evtid, make_evtid_group, get_class, get_classmate, all_in_class, selects,
}

make_as_sum : (c m : ℕ) → make_evtid c m ≡ c % 256 + m % 2 ^ 24 * 256
unfolding make_evtid
make_as_sum c m = omega (
  arith,
  bit_and_mask 8 c,
  bit_and_mask 24 (m % 2 ^ 32),
  bit_or_fields 8 (bit_and (m % 2 ^ 32) all_in_class) (bit_and c 0xff % 2 ^ 32)
      (bit_and (m % 2 ^ 32) all_in_class * 2 ^ 8) refl (omega (arith, bit_and_mask 8 c)),
)

make_group_as_sum : (c m : ℕ) → make_evtid_group c m ≡ c % 256 + m % 2 ^ 24 * 256
unfolding make_evtid_group
make_group_as_sum c m = omega (
  arith,
  bit_and_mask 8 (c % 2 ^ 32),
  bit_and_mask 24 (m % 2 ^ 32),
  bit_or_fields 8 (bit_and (m % 2 ^ 32) all_in_class) (bit_and (c % 2 ^ 32) 0xff)
      (bit_and (m % 2 ^ 32) all_in_class * 2 ^ 8) refl (omega (arith, bit_and_mask 8 (c % 2 ^ 32))),
)

class_as_mod : (id : ℕ) → get_class id ≡ id % 256
unfolding get_class
class_as_mod id = bit_and_mask 8 id

classmate_as_mod : (id : ℕ) → get_classmate id ≡ id / 256 % 2 ^ 24
unfolding get_classmate
classmate_as_mod id = bit_and_mask 24 (id / 256)

-- Both macros build the same id, whose two fields read back as the class modulo 2 ^ 8 and the
-- classmates modulo 2 ^ 24.
pub fields_of_make :
    (c m : ℕ)
    → (get_class (make_evtid c m) ≡ c % 2 ^ 8)
      × (get_classmate (make_evtid c m) ≡ m % 2 ^ 24)
      × (make_evtid_group c m ≡ make_evtid c m)
fields_of_make c m = (
  omega (arith, class_as_mod (make_evtid c m), make_as_sum c m),
  omega (arith, classmate_as_mod (make_evtid c m), make_as_sum c m),
  omega (arith, make_group_as_sum c m, make_as_sum c m),
)

-- Every 32-bit id is the one that its two fields make.
pub make-fields : (id : ℕ) → id < 2 ^ 32 → make_evtid (get_class id) (get_classmate id) ≡ id
make-fields id h =
    omega
      (arith, make_as_sum (get_class id) (get_classmate id), class_as_mod id, classmate_as_mod id)

pub selects-make :
    (c m c' m' : ℕ)
    → selects (make_evtid c m) (make_evtid c' m')
      ≡ (c % 256 == c' % 256 && not (bit_and (m % 2 ^ 24) (m' % 2 ^ 24) == 0))
unfolding selects
selects-make c m c' m' =
    let (class_read, mates_read, _) = fields_of_make c m in
    let (class_read', mates_read', _) = fields_of_make c' m' in
    rw (class_read, class_read', mates_read, mates_read')

bit_fits : (i : ℕ) → i < 24 → 2 ^ i % 2 ^ 24 ≡ 2 ^ i
bit_fits i h = omega (
  arith,
  mod-eq_of_lt {n = 2 ^ i} {m = 2 ^ 24}
      (omega (arith, one-le-pow i 2, pow-suc 2 i, pow-le-pow_right {n = 2} (omega arith) h)),
)

single_common : (i j : ℕ) → not (bit_and (2 ^ i) (2 ^ j) == 0) ≡ (i == j)
single_common i j = elim (ℕ_discrete i j) [
  | yes e ↦ rw e (ground (arith, bit_and_self (2 ^ j), one-le-pow j 2))
  | no ne ↦ ground (arith, bit_and_single i j ne)
]

-- An id for a single event selects exactly the posts of that event: the class and the classmate's
-- bit must both be its own.
pub selects_single :
    (c c' i j : ℕ)
    → c < 256
    → c' < 256
    → i < 24
    → j < 24
    → selects (make_evtid c (2 ^ i)) (make_evtid c' (2 ^ j)) ≡ (c == c' && i == j)
selects_single c c' i j hc hc' hi hj = rw (
  selects-make c (2 ^ i) c' (2 ^ j),
  bit_fits i hi,
  bit_fits j hj,
  single_common i j,
  mod-eq_of_lt hc,
  mod-eq_of_lt hc',
)

-- A group id over all classmates selects every event of its class that names some classmate, and
-- no event of another class.
pub selects_group :
    (c c' m : ℕ)
    → c < 256
    → c' < 256
    → m < 2 ^ 24
    → selects (make_evtid_group c all_in_class) (make_evtid c' m) ≡ (c == c' && not (m == 0))
selects_group c c' m hc hc' hm =
    let (_, _, same) = fields_of_make c all_in_class in
    let whole : bit_and all_in_class m ≡ m =
      omega (arith, bit_and_comm all_in_class m, bit_and_mask 24 m) in
    rw (
      same,
      selects-make c all_in_class c' m,
      mod-eq_of_lt hc,
      mod-eq_of_lt hc',
      mod-eq_of_lt hm,
      whole,
    )

-- A zero cell selects nothing.
pub selects_zero : (id : ℕ) → selects 0 id ≡ false
unfolding selects get_classmate
selects_zero id = ground (arith, zero-bit_and (get_classmate id))
