-- ===== src/Evt/Manager.antt =====
-- The event manager of PlatIF_EVT/PlatIF_Event.c: all its static variables as one record, and each
-- function of PlatIF_EVT/PlatIF_EventInterfaces.h on it, as one step under its lock. Whether each
-- allocation succeeds is an argument. The processor's thread is modelled in Evt/Worker.antt.
pub mod Lifecycle
pub mod Interface
pub mod Calls
pub mod Invariant
pub mod Init
pub mod Power
pub mod Clients
pub mod Events
pub mod Steps
pub mod Reach
pub mod Rounds
pub mod Sample
mod Tests
use freely_craft_codes.Prelude.{ℕ, Option, none}
use freely_craft_codes.Evt.Slots.{Slots}
use freely_craft_codes.Evt.Oper.{Opers}
use freely_craft_codes.Evt.Queue.{EvtQueue}
use freely_craft_codes.Evt.Psdb.{Table}

-- `_EvtMangerState_T`
pub data State : Type 0 where
  uninited ready running : State

pub State-discrete : Discrete State
State-discrete = hlevel

pub record Manager : Type 0 where
  pub state : State
  pub opers : Opers
  pub pub_table : Table
  pub sub_table : Table
  pub may_evt_queue_num_max : ℕ
  pub may_evt_desc_queue_num_max : ℕ
  pub evt_queue_procer : Option (Slots EvtQueue)

-- The static variables at the start of the program.
abbrev pub initial : Manager
initial = record {
  state = uninited;
  opers = record { may_reg_oper_num_max = 16; reged_oper_objs = none };
  pub_table = record { may_evt_num_max = 16; rows = none };
  sub_table = record { may_evt_num_max = 16; rows = none };
  may_evt_queue_num_max = 1;
  may_evt_desc_queue_num_max = 32;
  evt_queue_procer = none;
}
