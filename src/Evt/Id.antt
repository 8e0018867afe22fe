-- ===== src/Evt/Id.antt =====
-- Event ids: a class in the low 8 bits, a set of classmates, one bit each, in the upper 24
-- (PlatIF_EVT/PlatIF_EventID.h, PlatIF_EVT/PlatIF_EventMetaID.h).
pub mod Laws
pub mod Names
mod Tests
use freely_craft_codes.Prelude.{ℕ, ◌*◌, ◌/◌, ◌^◌, bit_and, bit_or, Bool, not, ◌&&◌, ◌==◌}
use freely_craft_codes.ThinkOs.{u32}

-- `TOS_EVENT_CLASS_MASK`
abbrev pub class_mask : ℕ
class_mask = 0xff

-- `TOS_EVENT_ALL_IN_CLASS`
abbrev pub all_in_class : ℕ
all_in_class = 0xff_ffff

-- `TOS_MAKE_EVTID`. The masks are `unsigned long`, so `<< 8` loses nothing.
unfoldable pub make_evtid : ℕ → ℕ → ℕ
make_evtid class_id classmate_id =
    bit_or (u32 (bit_and class_id class_mask)) (bit_and (u32 classmate_id) all_in_class * 2 ^ 8)

-- `TOS_MAKE_EVTID_GROUP`, which casts the class before it is masked.
pub make_evtid_group : ℕ → ℕ → ℕ
make_evtid_group class_id classmate_ids =
    bit_or (bit_and (u32 class_id) class_mask) (bit_and (u32 classmate_ids) all_in_class * 2 ^ 8)

-- `TOS_GET_EVTID_CLASS` and `TOS_GET_EVTID_CLASSMATE`
pub get_class : ℕ → ℕ
get_class evt_id = bit_and evt_id class_mask

pub get_classmate : ℕ → ℕ
get_classmate evt_id = bit_and (evt_id / 2 ^ 8) all_in_class

-- The test of the dispatcher: does a subscribed id select a posted one?
unfoldable pub selects : ℕ → ℕ → Bool
unfolding get_class get_classmate
selects subed posted =
    get_class subed == get_class posted
    && not (bit_and (get_classmate subed) (get_classmate posted) == 0)
