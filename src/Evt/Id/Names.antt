-- ===== src/Evt/Id/Names.antt =====
-- The catalogue of classes and events: which bit each enumerator of PlatIF_EVT/PlatIF_EventMetaID.h
-- is, and the ids of PlatIF_EVT/PlatIF_EventID.h. An enumerator `(1<<kUL)` is given by its k.
pub mod Catalogue
use freely_craft_codes.Prelude.{ℕ, ◌^◌}
use freely_craft_codes.Evt.Id.{make_evtid}

-- `TOS_EvtClassID_T`
pub data Class : Type 0 where
  test system vehicle_main vehicle_sub_chassis vehicle_sub_pallet : Class

unfoldable pub class_bit : Class → ℕ
class_bit test = 0
class_bit system = 1
class_bit vehicle_main = 2
class_bit vehicle_sub_chassis = 3
class_bit vehicle_sub_pallet = 4

-- `TOS_EvtTestID_T`
pub data TestEvent : Type 0 where
  keepalive msgdata echo_request echo_response : TestEvent
  cmd_x1 cmd_x1_ack cmd_x2 cmd_x2_ack cmd_x3 cmd_x3_ack cmd_x4 cmd_x4_ack : TestEvent

unfoldable pub test_bit : TestEvent → ℕ
test_bit TestEvent.keepalive = 0
test_bit msgdata = 1
test_bit echo_request = 2
test_bit echo_response = 3
test_bit cmd_x1 = 4
test_bit cmd_x1_ack = 5
test_bit cmd_x2 = 6
test_bit cmd_x2_ack = 7
test_bit cmd_x3 = 8
test_bit cmd_x3_ack = 9
test_bit cmd_x4 = 10
test_bit cmd_x4_ack = 11

-- `TOS_EvtSystemID_T`
pub data SystemEvent : Type 0 where
  keepalive timer : SystemEvent

pub system_bit : SystemEvent → ℕ
system_bit SystemEvent.keepalive = 0
system_bit timer = 1

-- `TOS_EvtVehicleMainID_T`, whose bits 6, 11 and 12 are free
pub data VehicleMainEvent : Type 0 where
  state_transfer self_test_pass self_test_failed self_test_excepted : VehicleMainEvent
  emergency_stop emergency_stop_ack fault_stop fault_stop_ack : VehicleMainEvent
  emergency_lock_resolved fault_lock_resolved : VehicleMainEvent
  switch_manual switch_manual_ack switch_remote switch_remote_ack : VehicleMainEvent
  mc_move_cmd mc_turn_cmd mc_upward_cmd mc_downward_cmd mc_rotate_cmd : VehicleMainEvent

pub vehicle_main_bit : VehicleMainEvent → ℕ
vehicle_main_bit state_transfer = 0
vehicle_main_bit self_test_pass = 1
vehicle_main_bit self_test_failed = 2
vehicle_main_bit self_test_excepted = 3
vehicle_main_bit emergency_stop = 4
vehicle_main_bit emergency_stop_ack = 5
vehicle_main_bit fault_stop = 7
vehicle_main_bit fault_stop_ack = 8
vehicle_main_bit emergency_lock_resolved = 9
vehicle_main_bit fault_lock_resolved = 10
vehicle_main_bit switch_manual = 13
vehicle_main_bit switch_manual_ack = 14
vehicle_main_bit switch_remote = 15
vehicle_main_bit switch_remote_ack = 16
vehicle_main_bit mc_move_cmd = 17
vehicle_main_bit mc_turn_cmd = 18
vehicle_main_bit mc_upward_cmd = 19
vehicle_main_bit mc_downward_cmd = 20
vehicle_main_bit mc_rotate_cmd = 21

-- `TOS_EvtVehicleSubChassisID_T`
pub data ChassisEvent : Type 0 where
  rc_start_move_cmd rc_start_move_cmd_ack rc_continue_move_cmd : ChassisEvent
  rc_continue_move_cmd_ack rc_stop_move_cmd rc_stop_move_cmd_ack : ChassisEvent
  rc_trun_cmd rc_trun_cmd_ack : ChassisEvent
  normal_stopped emergency_stopped fault_stopped : ChassisEvent

pub chassis_bit : ChassisEvent → ℕ
chassis_bit rc_start_move_cmd = 0
chassis_bit rc_start_move_cmd_ack = 1
chassis_bit rc_continue_move_cmd = 2
chassis_bit rc_continue_move_cmd_ack = 3
chassis_bit rc_stop_move_cmd = 4
chassis_bit rc_stop_move_cmd_ack = 5
chassis_bit rc_trun_cmd = 6
chassis_bit rc_trun_cmd_ack = 7
chassis_bit ChassisEvent.normal_stopped = 8
chassis_bit ChassisEvent.emergency_stopped = 9
chassis_bit ChassisEvent.fault_stopped = 10

-- `TOS_EvtVehicleSubPalletID_T`
pub data PalletEvent : Type 0 where
  rc_upward_cmd rc_upward_cmd_ack rc_downward_cmd rc_downward_cmd_ack : PalletEvent
  rc_rotate_cmd rc_rotate_cmd_ack : PalletEvent
  normal_stopped emergency_stopped fault_stopped : PalletEvent

pub pallet_bit : PalletEvent → ℕ
pallet_bit rc_upward_cmd = 0
pallet_bit rc_upward_cmd_ack = 1
pallet_bit rc_downward_cmd = 2
pallet_bit rc_downward_cmd_ack = 3
pallet_bit rc_rotate_cmd = 4
pallet_bit rc_rotate_cmd_ack = 5
pallet_bit PalletEvent.normal_stopped = 6
pallet_bit PalletEvent.emergency_stopped = 7
pallet_bit PalletEvent.fault_stopped = 8

-- An event of the catalogue, under the class that its `RefEvtClass` comment names.
pub data Event : Type 0 where
  of_test : TestEvent → Event
  of_system : SystemEvent → Event
  of_vehicle_main : VehicleMainEvent → Event
  of_chassis : ChassisEvent → Event
  of_pallet : PalletEvent → Event

unfoldable pub class_of : Event → Class
class_of (of_test e) = test
class_of (of_system e) = system
class_of (of_vehicle_main e) = vehicle_main
class_of (of_chassis e) = vehicle_sub_chassis
class_of (of_pallet e) = vehicle_sub_pallet

unfoldable pub event_bit : Event → ℕ
unfolding test_bit system_bit vehicle_main_bit chassis_bit pallet_bit
event_bit (of_test e) = test_bit e
event_bit (of_system e) = system_bit e
event_bit (of_vehicle_main e) = vehicle_main_bit e
event_bit (of_chassis e) = chassis_bit e
event_bit (of_pallet e) = pallet_bit e

-- `TOS_MAKE_EVTID` of an event's class and bit: `TOS_EVTID_TEST_*` and `TOS_EVTID_SYSTEM_TIMER` of
-- PlatIF_EventID.h, which names no id for most of the other events.
unfoldable pub evtid : Event → ℕ
unfolding class_bit class_of event_bit
evtid e = make_evtid (2 ^ class_bit (class_of e)) (2 ^ event_bit e)

-- `TOS_EVTID_TEST_KEEPALIVE` and its like
abbrev pub test_evtid : TestEvent → ℕ
test_evtid e = evtid (of_test e)
