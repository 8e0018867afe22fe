-- ===== src/Evt/Manager/Sample.antt =====
-- A manager with one operator, which has subscribed to one id, for tests.
use freely_craft_codes.Prelude.{refl, true, some, none, ◌∷◌, replicate, set, arith, []}
use freely_craft_codes.Evt.Types.{EvtDesc, EvtSubArgs, EvtOperArgs, ModArgs}
use freely_craft_codes.Evt.Queue.{zero_desc, new_queue}
use freely_craft_codes.Evt.Queue.Invariant.{new_queue-IsValid}
use freely_craft_codes.Evt.Oper.Invariant as OperTable
use freely_craft_codes.Evt.Psdb.Rows.{evt_suber}
use freely_craft_codes.Evt.Psdb.Invariant.{IsPuber, IsSuber, new_row, new_row-IsSuber, fresh_rows}
use freely_craft_codes.Evt.Psdb.Invariant as Rows
use freely_craft_codes.Evt.Manager.{running, Manager}
use freely_craft_codes.Evt.Manager.Lifecycle.{InitMemory}
use freely_craft_codes.Evt.Manager.Invariant.{IsValid}

abbrev pub desc : EvtDesc
desc = record zero_desc { evt_id = 0x201 }

abbrev pub oper_args : EvtOperArgs
oper_args = record { mod_obj_id = 7 }

abbrev pub sub_args : EvtSubArgs
sub_args = record { to_obj_priv = 5; cb_proc_evt_srt = 6 }

abbrev pub params : ModArgs
params = record {
  may_reg_oper_num_max = 2;
  may_pub_evt_num_max = 1;
  may_sub_evt_num_max = 2;
  may_evt_queue_num_max = 1;
  may_evt_queue_depth_max = 2;
}

abbrev pub all_memory : InitMemory
all_memory = record {
  for_opers = true;
  for_pub_table = true;
  for_sub_table = true;
  for_queues = true;
}

-- The manager after initializing, registering, subscribing and enabling.
abbrev pub sample : Manager
sample = record {
  state = running;
  opers = OperTable.table_of 2 (set (replicate 2 none) 0 (some (OperTable.new_obj 0 oper_args)));
  pub_table = Rows.table_of 1 (replicate 1 none);
  sub_table =
      Rows.table_of 2
        (set (replicate 2 none) 0 (some (new_row 1 evt_suber 0 (some sub_args) (0x201 ∷ []) 1)));
  may_evt_queue_num_max = 1;
  may_evt_desc_queue_num_max = 2;
  evt_queue_procer = some (some (new_queue 2) ∷ []);
}

pub sample-IsValid : IsValid 1 sample
sample-IsValid = record {
  opers =
      OperTable.set-placed 2 (replicate 2 none) (OperTable.fresh_opers 2) 0 oper_args (omega arith);
  pub_rows = fresh_rows (IsPuber 1) 1;
  sub_rows =
      Rows.set-placed (IsSuber 1) 2 (replicate 2 none) (fresh_rows (IsSuber 1) 2) 0
        (new_row 1 evt_suber 0 (some sub_args) (0x201 ∷ []) 1) (omega arith)
        (new_row-IsSuber 1 0 sub_args (0x201 ∷ []) 1 (omega arith));
  one_queue = refl;
  deep = omega arith;
  deep_small = omega arith;
  queue = (new_queue 2, refl, new_queue-IsValid 2 (omega arith) (omega arith));
}
