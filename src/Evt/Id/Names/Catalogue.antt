-- ===== src/Evt/Id/Names/Catalogue.antt =====
-- The ids of the catalogue are told apart by the dispatcher's test.
use freely_craft_codes.Prelude.{
  ◌^◌, ◌<◌, ◌≡◌, sym, ap₂, ◌∙◌, ◌↔◌, Bool, true, ◌&&◌, ◌==◌, ==_iff, some, List, [], ◌∷◌, get_elem?,
  arith,
}
use freely_craft_codes.Evt.Id.{selects}
use freely_craft_codes.Evt.Id.Laws.{selects_single}
use freely_craft_codes.Evt.Id.Names.{
  Class, test, system, vehicle_main, vehicle_sub_chassis, vehicle_sub_pallet, class_bit, TestEvent,
  SystemEvent, VehicleMainEvent, ChassisEvent, PalletEvent, Event, of_test, of_system,
  of_vehicle_main, of_chassis, of_pallet, class_of, event_bit, evtid,
}

-- What a bit number of a class stands for.
abbrev test_events : List Event
test_events =
    of_test TestEvent.keepalive
    ∷ of_test TestEvent.msgdata
    ∷ of_test TestEvent.echo_request
    ∷ of_test TestEvent.echo_response
    ∷ of_test TestEvent.cmd_x1
    ∷ of_test TestEvent.cmd_x1_ack
    ∷ of_test TestEvent.cmd_x2
    ∷ of_test TestEvent.cmd_x2_ack
    ∷ of_test TestEvent.cmd_x3
    ∷ of_test TestEvent.cmd_x3_ack
    ∷ of_test TestEvent.cmd_x4
    ∷ of_test TestEvent.cmd_x4_ack
    ∷ []

abbrev system_events : List Event
system_events = of_system SystemEvent.keepalive ∷ of_system SystemEvent.timer ∷ []

abbrev vehicle_main_events : List Event
vehicle_main_events =
    of_vehicle_main VehicleMainEvent.state_transfer
    ∷ of_vehicle_main VehicleMainEvent.self_test_pass
    ∷ of_vehicle_main VehicleMainEvent.self_test_failed
    ∷ of_vehicle_main VehicleMainEvent.self_test_excepted
    ∷ of_vehicle_main VehicleMainEvent.emergency_stop
    ∷ of_vehicle_main VehicleMainEvent.emergency_stop_ack
    ∷ of_vehicle_main VehicleMainEvent.state_transfer
    ∷ of_vehicle_main VehicleMainEvent.fault_stop
    ∷ of_vehicle_main VehicleMainEvent.fault_stop_ack
    ∷ of_vehicle_main VehicleMainEvent.emergency_lock_resolved
    ∷ of_vehicle_main VehicleMainEvent.fault_lock_resolved
    ∷ of_vehicle_main VehicleMainEvent.state_transfer
    ∷ of_vehicle_main VehicleMainEvent.state_transfer
    ∷ of_vehicle_main VehicleMainEvent.switch_manual
    ∷ of_vehicle_main VehicleMainEvent.switch_manual_ack
    ∷ of_vehicle_main VehicleMainEvent.switch_remote
    ∷ of_vehicle_main VehicleMainEvent.switch_remote_ack
    ∷ of_vehicle_main VehicleMainEvent.mc_move_cmd
    ∷ of_vehicle_main VehicleMainEvent.mc_turn_cmd
    ∷ of_vehicle_main VehicleMainEvent.mc_upward_cmd
    ∷ of_vehicle_main VehicleMainEvent.mc_downward_cmd
    ∷ of_vehicle_main VehicleMainEvent.mc_rotate_cmd
    ∷ []

abbrev chassis_events : List Event
chassis_events =
    of_chassis ChassisEvent.rc_start_move_cmd
    ∷ of_chassis ChassisEvent.rc_start_move_cmd_ack
    ∷ of_chassis ChassisEvent.rc_continue_move_cmd
    ∷ of_chassis ChassisEvent.rc_continue_move_cmd_ack
    ∷ of_chassis ChassisEvent.rc_stop_move_cmd
    ∷ of_chassis ChassisEvent.rc_stop_move_cmd_ack
    ∷ of_chassis ChassisEvent.rc_trun_cmd
    ∷ of_chassis ChassisEvent.rc_trun_cmd_ack
    ∷ of_chassis ChassisEvent.normal_stopped
    ∷ of_chassis ChassisEvent.emergency_stopped
    ∷ of_chassis ChassisEvent.fault_stopped
    ∷ []

abbrev pallet_events : List Event
pallet_events =
    of_pallet PalletEvent.rc_upward_cmd
    ∷ of_pallet PalletEvent.rc_upward_cmd_ack
    ∷ of_pallet PalletEvent.rc_downward_cmd
    ∷ of_pallet PalletEvent.rc_downward_cmd_ack
    ∷ of_pallet PalletEvent.rc_rotate_cmd
    ∷ of_pallet PalletEvent.rc_rotate_cmd_ack
    ∷ of_pallet PalletEvent.normal_stopped
    ∷ of_pallet PalletEvent.emergency_stopped
    ∷ of_pallet PalletEvent.fault_stopped
    ∷ []

abbrev events_of : Class → List Event
events_of test = test_events
events_of system = system_events
events_of vehicle_main = vehicle_main_events
events_of vehicle_sub_chassis = chassis_events
events_of vehicle_sub_pallet = pallet_events

read_back : (e : Event) → get_elem? (events_of (class_of e)) (event_bit e) ≡ some e
unfolding class_of event_bit
read_back (of_test e) = ground arith
read_back (of_system e) = ground arith
read_back (of_vehicle_main e) = ground arith
read_back (of_chassis e) = ground arith
read_back (of_pallet e) = ground arith

class_bit_injective : (c d : Class) → class_bit c ≡ class_bit d → c ≡ d
unfolding class_bit
class_bit_injective c d h = ground arith

class_value : (c d : Class) → (2 ^ class_bit c == 2 ^ class_bit d) ≡ true → c ≡ d
unfolding class_bit
class_value c d h = ground arith

class_value_small : (c : Class) → 2 ^ class_bit c < 256
unfolding class_bit
class_value_small c = ground arith

bit_small : (e : Event) → event_bit e < 24
unfolding event_bit
bit_small (of_test e) = ground arith
bit_small (of_system e) = ground arith
bit_small (of_vehicle_main e) = ground arith
bit_small (of_chassis e) = ground arith
bit_small (of_pallet e) = ground arith

and_true : (a b : Bool) → (a && b) ≡ true → (a ≡ true) × (b ≡ true)
and_true a b h = ground arith

same_event : (a b : Event) → class_of a ≡ class_of b → event_bit a ≡ event_bit b → a ≡ b
same_event a b p q =
    let listed = ap₂ (λ c n. get_elem? (events_of c) n) p q in cc (listed, read_back a, read_back b)

evtid-selects_eq :
    (a b : Event)
    → selects (evtid a) (evtid b)
      ≡ (2 ^ class_bit (class_of a) == 2 ^ class_bit (class_of b) && event_bit a == event_bit b)
unfolding evtid
evtid-selects_eq a b =
    selects_single (2 ^ class_bit (class_of a)) (2 ^ class_bit (class_of b)) (event_bit a)
      (event_bit b) (class_value_small (class_of a)) (class_value_small (class_of b)) (bit_small a)
      (bit_small b)

same_of_fields :
    (a b : Event)
    → (2 ^ class_bit (class_of a) == 2 ^ class_bit (class_of b) && event_bit a == event_bit b)
      ≡ true
    → a ≡ b
same_of_fields a b h =
    let (same_class, same_bit) =
      and_true (2 ^ class_bit (class_of a) == 2 ^ class_bit (class_of b)) _ h in
    same_event a b (class_value (class_of a) (class_of b) same_class)
      ((==_iff (event_bit a) (event_bit b)).0 same_bit)

-- A subscription to one event of the catalogue selects the posts of that event and of no other.
pub evtid-selects : (a b : Event) → (selects (evtid a) (evtid b) ≡ true) ↔ (a ≡ b)
evtid-selects a b = (
  λ h. same_of_fields a b (sym (evtid-selects_eq a b) ∙ h),
  λ e. rw (e, evtid-selects_eq b b) (ground arith),
)
