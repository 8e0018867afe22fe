-- ===== src/Evt/Types.antt =====
-- The data that clients of the event manager hand over (PlatIF_EVT/PlatIF_EventTypes.h).
use freely_craft_codes.Prelude.{ℕ, List}

-- `TOS_EvtDesc_T`; `evt_data` is the 32 bytes of the union `EvtData`.
pub record EvtDesc : Type 0 where
  pub evt_puber_id : ℕ
  pub evt_id : ℕ
  pub evt_flags : ℕ
  pub seq_id : ℕ
  pub evt_data : List ℕ

-- `TOS_EvtSubArgs_T`: an object and a callback, two pointers that the manager only passes on.
pub record EvtSubArgs : Type 0 where
  pub to_obj_priv : ℕ
  pub cb_proc_evt_srt : ℕ

-- `TOS_EvtOperArgs_T`
pub record EvtOperArgs : Type 0 where
  pub mod_obj_id : ℕ

-- `TOS_EvtMangerModArgs_T`
pub record ModArgs : Type 0 where
  pub may_reg_oper_num_max : ℕ
  pub may_pub_evt_num_max : ℕ
  pub may_sub_evt_num_max : ℕ
  pub may_evt_queue_num_max : ℕ
  pub may_evt_queue_depth_max : ℕ
