-- ===== src/Evt/Case02/Start.antt =====
-- The manager before and during the test.
use freely_craft_codes.Prelude.{
  ℕ, zero, suc, ◌≡◌, refl, Option, none, some, List, ◌∷◌, [], ok, length, replicate, set, arith,
}
use freely_craft_codes.Evt.Id.{make_evtid}
use freely_craft_codes.Evt.Id.Names.{evtid, class_bit, class_of, event_bit, test_bit}
use freely_craft_codes.Evt.Slots.{find_free, find_used}
use freely_craft_codes.Evt.Oper.{is_reged_oper_id, do_reg_oper, unreg_oper}
use freely_craft_codes.Evt.Oper.Invariant as OperTable
use freely_craft_codes.Evt.Queue.{EvtQueue, new_queue}
use freely_craft_codes.Evt.Queue.Invariant.{new_queue-IsValid}
use freely_craft_codes.Evt.Psdb
use freely_craft_codes.Evt.Psdb.{do_pub_evts, do_sub_evts, free_row_of}
use freely_craft_codes.Evt.Psdb.Rows.{Row, evt_puber, evt_suber, copy_ids, fill_ids}
use freely_craft_codes.Evt.Psdb.Invariant.{
  IsPuber, IsSuber, new_row, new_row-IsPuber, new_row-IsSuber, fresh_rows,
}
use freely_craft_codes.Evt.Psdb.Invariant as Rows
use freely_craft_codes.Evt.Manager.{Manager, running}
use freely_craft_codes.Evt.Manager.Invariant.{IsValid}
use freely_craft_codes.Evt.Manager.Lifecycle.{
  enable_evt_manger, disable_evt_manger, startup_evt_procer, stop_evt_procer,
}
use freely_craft_codes.Evt.Manager.Interface.{
  reg_oper, unreg, pub_evts, unpub_evts, sub_evts, unsub_evts,
}
use freely_craft_codes.Evt.Scenario.{case01_teardown}
use freely_craft_codes.Evt.Scenario.Start.{start, operators, opers-IsValid}
use freely_craft_codes.Evt.Case02.{case02_setup}

abbrev pub row_of : ℕ → List ℕ → Row
row_of id ids =
    new_row 1 evt_suber id (some (record { to_obj_priv = id; cb_proc_evt_srt = id })) ids
      (length ids)

abbrev ids_b : List ℕ
ids_b = 0x101 ∷ []

abbrev ids_c : List ℕ
ids_c = 0x201 ∷ []

abbrev ids_d : List ℕ
ids_d = 0x101 ∷ 0x201 ∷ []

abbrev pub rows : List (Option Row)
rows = some (row_of 1 ids_b) ∷ some (row_of 2 ids_c) ∷ some (row_of 3 ids_d) ∷ replicate 13 none

-- The manager that runs with its four operators, and this queue.
abbrev pub enabled : EvtQueue → Manager
enabled q = record {
  state = running;
  opers = OperTable.table_of 6 (
      some (OperTable.new_obj 0 (record { mod_obj_id = 0xFFFE }))
      ∷ some (OperTable.new_obj 1 (record { mod_obj_id = 0xFFFD }))
      ∷ some (OperTable.new_obj 2 (record { mod_obj_id = 0xFFFC }))
      ∷ some (OperTable.new_obj 3 (record { mod_obj_id = 0xFFFB }))
      ∷ replicate 2 none);
  pub_table =
      Rows.table_of 16
        (some (new_row 1 evt_puber 0 none (0x101 ∷ 0x201 ∷ []) 2) ∷ replicate 15 none);
  sub_table = Rows.table_of 16 rows;
  may_evt_queue_num_max = 1;
  may_evt_desc_queue_num_max = 256;
  evt_queue_procer = some (some q ∷ []);
}

pub case02_setup_lem : case02_setup 1 start ≡ ok (operators, enabled (new_queue 256))
unfolding case02_setup reg_oper do_reg_oper find_free find_used is_reged_oper_id pub_evts
    do_pub_evts copy_ids fill_ids sub_evts do_sub_evts enable_evt_manger startup_evt_procer evtid
    make_evtid class_bit class_of event_bit test_bit new_queue
case02_setup_lem = refl

pub case02_teardown_lem : (q : EvtQueue) → case01_teardown operators (enabled q) ≡ ok start
unfolding case01_teardown disable_evt_manger stop_evt_procer unpub_evts unsub_evts Psdb.unsub_evts
    Psdb.unpub_evts free_row_of find_used unreg unreg_oper
case02_teardown_lem q = refl

row-IsSuber : (id : ℕ) (ids : List ℕ) → IsSuber 1 (row_of id ids)
row-IsSuber id ids =
    new_row-IsSuber 1 id (record { to_obj_priv = id; cb_proc_evt_srt = id }) ids (length ids)
      (omega arith)

abbrev ids_of : ℕ → List ℕ
ids_of zero = ids_b
ids_of (suc zero) = ids_c
ids_of (suc (suc n)) = ids_d

abbrev rows_to : ℕ → List (Option Row)
rows_to zero = replicate 16 none
rows_to (suc n) = set (rows_to n) n (some (row_of (suc n) (ids_of n)))

rows-IsValid : Rows.IsValidRows (IsSuber 1) 16 (rows_to 3)
rows-IsValid =
    let one =
      Rows.set-placed (IsSuber 1) 16 (rows_to 0) (fresh_rows (IsSuber 1) 16) 0 (row_of 1 ids_b)
        (omega arith) (row-IsSuber 1 ids_b) in
    let two =
      Rows.set-placed (IsSuber 1) 16 (rows_to 1) one 1 (row_of 2 ids_c) (omega arith)
        (row-IsSuber 2 ids_c) in
    Rows.set-placed (IsSuber 1) 16 (rows_to 2) two 2 (row_of 3 ids_d) (omega arith)
      (row-IsSuber 3 ids_d)

pub enabled-IsValid : IsValid 1 (enabled (new_queue 256))
enabled-IsValid = record {
  opers = opers-IsValid;
  pub_rows =
      Rows.set-placed (IsPuber 1) 16 (replicate 16 none) (fresh_rows (IsPuber 1) 16) 0
        (new_row 1 evt_puber 0 none (0x101 ∷ 0x201 ∷ []) 2) (omega arith)
        (new_row-IsPuber 1 0 (0x101 ∷ 0x201 ∷ []) 2 (omega arith));
  sub_rows = rows-IsValid;
  one_queue = refl;
  deep = omega arith;
  deep_small = omega arith;
  queue = (new_queue 256, refl, new_queue-IsValid 256 (omega arith) (omega arith));
}
