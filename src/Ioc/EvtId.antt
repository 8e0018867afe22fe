-- ===== src/Ioc/EvtId.antt =====
-- The event ids of PlatIF_IOC/PlatIF_IOC_EvtID.h: the class in the low 16 bits, the name above them.
use freely_craft_codes.Prelude.{ℕ, ◌*◌, ◌/◌, ◌%◌, ◌^◌, ◌<◌, ◌≡◌, refl, bit_or, arith}
use freely_craft_codes.Prelude.Bits.{bit_or_fields}

-- `IOC_EVT_CLASS_TEST`, of `IOC_EvtClass_T`
abbrev pub class_test : ℕ
class_test = 2 ^ 0

-- `IOC_EvtNameTest_T`
pub data EvtNameTest : Type 0 where
  keepalive move_vertical move_vertical_ack move_horizontal move_horizontal_ack : EvtNameTest
  collision_detected collision_detected_ack : EvtNameTest
  mayblock_sleep_1ms nonblock_sleep_5ms : EvtNameTest

unfoldable pub name_value : EvtNameTest → ℕ
name_value keepalive = 2 ^ 0
name_value move_vertical = 2 ^ 1
name_value move_vertical_ack = 2 ^ 2
name_value move_horizontal = 2 ^ 3
name_value move_horizontal_ack = 2 ^ 4
name_value collision_detected = 2 ^ 5
name_value collision_detected_ack = 2 ^ 6
name_value mayblock_sleep_1ms = 2 ^ 7
name_value nonblock_sleep_5ms = 2 ^ 8

-- `IOC_defineEvtID`
unfoldable pub define_evt_id : ℕ → ℕ → ℕ
define_evt_id evt_class evt_name = bit_or evt_class (evt_name * 2 ^ 16)

-- `IOC_EVTID_TEST_KEEPALIVE` and the other eight
unfoldable pub test_evt_id : EvtNameTest → ℕ
unfolding define_evt_id name_value
test_evt_id name = define_evt_id class_test (name_value name)

-- The class and the name of an id can be read back, for a class of at most 16 bits.
pub define_evt_id-fields :
    (evt_class evt_name : ℕ)
    → evt_class < 2 ^ 16
    → (define_evt_id evt_class evt_name % 2 ^ 16 ≡ evt_class)
      × (define_evt_id evt_class evt_name / 2 ^ 16 ≡ evt_name)
unfolding define_evt_id
define_evt_id-fields evt_class evt_name h =
    let joined = bit_or_fields 16 evt_name evt_class (evt_name * 2 ^ 16) refl h in
    (omega (arith, joined), omega (arith, joined))
