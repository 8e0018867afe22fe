-- ===== src/Evt/Scenario/Start.antt =====
-- The manager before and during the test.
use freely_craft_codes.Prelude.{
  ℕ, zero, suc, ◌-◌, ◌≡◌, refl, true, Option, none, some, List, ◌∷◌, [], ok, replicate, set, arith,
}
use freely_craft_codes.ThinkOs.{success}
use freely_craft_codes.Evt.Id.{make_evtid}
use freely_craft_codes.Evt.Id.Names.{evtid, class_bit, class_of, event_bit, test_bit}
use freely_craft_codes.Evt.Slots.{find_free, find_used}
use freely_craft_codes.Evt.Oper.{OperObj, is_reged_oper_id, do_reg_oper, unreg_oper}
use freely_craft_codes.Evt.Oper.Invariant as OperTable
use freely_craft_codes.Evt.Queue.{EvtQueue, new_queue}
use freely_craft_codes.Evt.Queue.Invariant.{new_queue-IsValid}
use freely_craft_codes.Evt.Manager.Invariant.{IsValid}
use freely_craft_codes.Evt.Psdb
use freely_craft_codes.Evt.Psdb.{do_pub_evts, do_sub_evts, free_row_of}
use freely_craft_codes.Evt.Psdb.Rows.{Row, evt_puber, evt_suber, copy_ids, fill_ids}
use freely_craft_codes.Evt.Psdb.Invariant.{
  IsPuber, IsSuber, new_row, new_row-IsPuber, new_row-IsSuber, fresh_rows,
}
use freely_craft_codes.Evt.Psdb.Invariant as Rows
use freely_craft_codes.Evt.Manager.{Manager, initial, ready, running}
use freely_craft_codes.Evt.Manager.Lifecycle.{
  InitMemory, init_evt_manger, enable_evt_manger, disable_evt_manger, startup_evt_procer,
  stop_evt_procer,
}
use freely_craft_codes.Evt.Manager.Interface.{
  reg_oper, unreg, pub_evts, unpub_evts, sub_evts, unsub_evts,
}
use freely_craft_codes.Evt.Manager.Rounds.{IsWaiting}
use freely_craft_codes.Evt.Oper.Invariant.{reged}
use freely_craft_codes.Evt.Scenario.{
  group_args, case01_setup, case01_teardown, Operators, case01_cb,
}

abbrev pub all_memory : InitMemory
all_memory = record {
  for_opers = true;
  for_pub_table = true;
  for_sub_table = true;
  for_queues = true;
}

-- The manager that the group of tests starts with.
abbrev pub start : Manager
start = record {
  state = ready;
  opers = OperTable.table_of 6 (replicate 6 none);
  pub_table = Rows.table_of 16 (replicate 16 none);
  sub_table = Rows.table_of 16 (replicate 16 none);
  may_evt_queue_num_max = 1;
  may_evt_desc_queue_num_max = 256;
  evt_queue_procer = some (none ∷ []);
}

start_lem : init_evt_manger all_memory (some group_args) initial ≡ (success, start)
unfolding init_evt_manger
start_lem = refl

abbrev pub operators : Operators
operators = record {
  results = replicate 9 success;
  puber_a = 0;
  suber_b = 1;
  suber_c = 2;
  suber_d = 3;
}

abbrev pub row_of : ℕ → ℕ → Row
row_of id priv =
    new_row 1 evt_suber id (some (record { to_obj_priv = priv; cb_proc_evt_srt = case01_cb }))
      (0x101 ∷ []) 1

abbrev pub rows : List (Option Row)
rows = some (row_of 1 1) ∷ some (row_of 2 2) ∷ some (row_of 3 3) ∷ replicate 13 none

-- The manager that runs with its four operators, and this queue.
abbrev pub enabled : EvtQueue → Manager
enabled q = record {
  state = running;
  opers = OperTable.table_of 6 (
      some (OperTable.new_obj 0 (record { mod_obj_id = 0xFFFE }))
      ∷ some (OperTable.new_obj 1 (record { mod_obj_id = 0xFFFD }))
      ∷ some (OperTable.new_obj 2 (record { mod_obj_id = 0xFFFC }))
      ∷ some (OperTable.new_obj 3 (record { mod_obj_id = 0xFFFB }))
      ∷ replicate 2 none);
  pub_table =
      Rows.table_of 16 (some (new_row 1 evt_puber 0 none (0x101 ∷ []) 1) ∷ replicate 15 none);
  sub_table = Rows.table_of 16 rows;
  may_evt_queue_num_max = 1;
  may_evt_desc_queue_num_max = 256;
  evt_queue_procer = some (some q ∷ []);
}

pub case01_setup_lem : case01_setup 1 start ≡ ok (operators, enabled (new_queue 256))
unfolding case01_setup reg_oper do_reg_oper find_free find_used is_reged_oper_id pub_evts
    do_pub_evts copy_ids fill_ids sub_evts do_sub_evts enable_evt_manger startup_evt_procer evtid
    make_evtid class_bit class_of event_bit test_bit new_queue
case01_setup_lem = refl

pub case01_teardown_lem : (q : EvtQueue) → case01_teardown operators (enabled q) ≡ ok start
unfolding case01_teardown disable_evt_manger stop_evt_procer unpub_evts unsub_evts Psdb.unsub_evts
    Psdb.unpub_evts free_row_of find_used unreg unreg_oper
case01_teardown_lem q = refl

-- One operator, or one subscriber, after the other.
abbrev opers_to : ℕ → List (Option OperObj)
opers_to zero = replicate 6 none
opers_to (suc n) =
    set (opers_to n) n (some (OperTable.new_obj n (record { mod_obj_id = 0xFFFE - n })))

pub opers-IsValid : OperTable.IsValidTable 6 (opers_to 4)
opers-IsValid =
    let one =
      OperTable.set-placed 6 (opers_to 0) (OperTable.fresh_opers 6) 0
        (record { mod_obj_id = 0xFFFE }) (omega arith) in
    let two =
      OperTable.set-placed 6 (opers_to 1) one 1 (record { mod_obj_id = 0xFFFD }) (omega arith) in
    let three =
      OperTable.set-placed 6 (opers_to 2) two 2 (record { mod_obj_id = 0xFFFC }) (omega arith) in
    OperTable.set-placed 6 (opers_to 3) three 3 (record { mod_obj_id = 0xFFFB }) (omega arith)

abbrev rows_to : ℕ → List (Option Row)
rows_to zero = replicate 16 none
rows_to (suc n) = set (rows_to n) n (some (row_of (suc n) (suc n)))

row-IsSuber : (id priv : ℕ) → IsSuber 1 (row_of id priv)
row-IsSuber id priv =
    new_row-IsSuber 1 id (record { to_obj_priv = priv; cb_proc_evt_srt = case01_cb }) (0x101 ∷ []) 1
      (omega arith)

rows-IsValid : Rows.IsValidRows (IsSuber 1) 16 (rows_to 3)
rows-IsValid =
    let one =
      Rows.set-placed (IsSuber 1) 16 (rows_to 0) (fresh_rows (IsSuber 1) 16) 0 (row_of 1 1)
        (omega arith) (row-IsSuber 1 1) in
    let two =
      Rows.set-placed (IsSuber 1) 16 (rows_to 1) one 1 (row_of 2 2) (omega arith)
        (row-IsSuber 2 2) in
    Rows.set-placed (IsSuber 1) 16 (rows_to 2) two 2 (row_of 3 3) (omega arith) (row-IsSuber 3 3)

enabled-IsValid : IsValid 1 (enabled (new_queue 256))
enabled-IsValid = record {
  opers = opers-IsValid;
  pub_rows =
      Rows.set-placed (IsPuber 1) 16 (replicate 16 none) (fresh_rows (IsPuber 1) 16) 0
        (new_row 1 evt_puber 0 none (0x101 ∷ []) 1) (omega arith)
        (new_row-IsPuber 1 0 (0x101 ∷ []) 1 (omega arith));
  sub_rows = rows-IsValid;
  one_queue = refl;
  deep = omega arith;
  deep_small = omega arith;
  queue = (new_queue 256, refl, new_queue-IsValid 256 (omega arith) (omega arith));
}

pub enabled-IsWaiting : IsWaiting 1 (new_queue 256) (enabled (new_queue 256))
unfolding new_queue
enabled-IsWaiting = record {
  valid = enabled-IsValid;
  is_running = refl;
  queue = refl;
  deep = omega arith;
  empty = refl;
}
