-- ===== src/Evt/Case03/Start.antt =====
-- The manager before and during the test.
use freely_craft_codes.Prelude.{
  ℕ, zero, suc, ◌<◌, ◌≡◌, refl, Option, none, some, List, ◌∷◌, [], ok, replicate, set, arith,
}
use freely_craft_codes.Evt.Types.{EvtSubArgs}
use freely_craft_codes.Evt.Id.{make_evtid}
use freely_craft_codes.Evt.Id.Names.{evtid, class_bit, class_of, event_bit, test_bit}
use freely_craft_codes.ThinkOs.{success}
use freely_craft_codes.Evt.Slots.{find_free, find_used}
use freely_craft_codes.Evt.Oper.{is_reged_oper_id, do_reg_oper, unreg_oper}
use freely_craft_codes.Evt.Oper.Invariant as OperTable
use freely_craft_codes.Evt.Queue.{EvtQueue, new_queue}
use freely_craft_codes.Evt.Queue.Invariant.{new_queue-IsValid}
use freely_craft_codes.Evt.Psdb
use freely_craft_codes.Evt.Psdb.{do_pub_evts, do_sub_evts, free_row_of}
use freely_craft_codes.Evt.Psdb.Rows.{Row, evt_puber, evt_suber, copy_ids, fill_ids}
use freely_craft_codes.Evt.Psdb.Invariant.{
  IsPuber, IsSuber, new_row, new_row-IsPuber, new_row-IsSuber, fresh_rows,
}
use freely_craft_codes.Evt.Psdb.Invariant as Rows
use freely_craft_codes.Evt.Manager.{Manager, running}
use freely_craft_codes.Evt.Manager.Invariant.{IsValid}
use freely_craft_codes.Evt.Manager.Lifecycle.{
  enable_evt_manger, disable_evt_manger, startup_evt_procer, stop_evt_procer,
}
use freely_craft_codes.Evt.Manager.Interface.{
  reg_oper, unreg, pub_evts, unpub_evts, sub_evts, unsub_evts,
}
use freely_craft_codes.Evt.Scenario.Start.{start, opers-IsValid}
use freely_craft_codes.Evt.Case03.{case03_setup, case03_teardown, EchoOpers}

abbrev pub operators : EchoOpers
operators = record {
  results = replicate 11 success;
  oper_a = 0;
  oper_b = 1;
  suber_c = 2;
  suber_d = 3;
}

abbrev sub_args : ℕ → ℕ → EvtSubArgs
sub_args cb priv = record { to_obj_priv = priv; cb_proc_evt_srt = cb }

abbrev pub row_of : ℕ → EvtSubArgs → ℕ → Row
row_of id args evt_id = new_row 1 evt_suber id (some args) (evt_id ∷ []) 1

-- The rows of A, B, C and D.
abbrev row_at : ℕ → Row
row_at zero = row_of 0 (sub_args 1 1) 0x801
row_at (suc zero) = row_of 1 (sub_args 2 2) 0x401
row_at (suc (suc n)) = row_of (suc (suc n)) (sub_args 3 (suc (suc (suc n)))) 0x801

abbrev pub rows : List (Option Row)
rows = some (row_at 0) ∷ some (row_at 1) ∷ some (row_at 2) ∷ some (row_at 3) ∷ replicate 12 none

abbrev pub_row : ℕ → ℕ → Row
pub_row id evt_id = new_row 1 evt_puber id none (evt_id ∷ []) 1

-- The manager that runs with its four operators, and this queue.
abbrev pub enabled : EvtQueue → Manager
enabled q = record {
  state = running;
  opers = OperTable.table_of 6 (
      some (OperTable.new_obj 0 (record { mod_obj_id = 0xFFFE }))
      ∷ some (OperTable.new_obj 1 (record { mod_obj_id = 0xFFFD }))
      ∷ some (OperTable.new_obj 2 (record { mod_obj_id = 0xFFFC }))
      ∷ some (OperTable.new_obj 3 (record { mod_obj_id = 0xFFFB }))
      ∷ replicate 2 none);
  pub_table =
      Rows.table_of 16 (some (pub_row 0 0x401) ∷ some (pub_row 1 0x801) ∷ replicate 14 none);
  sub_table = Rows.table_of 16 rows;
  may_evt_queue_num_max = 1;
  may_evt_desc_queue_num_max = 256;
  evt_queue_procer = some (some q ∷ []);
}

pub case03_setup_lem : case03_setup 1 start ≡ ok (operators, enabled (new_queue 256))
unfolding case03_setup reg_oper do_reg_oper find_free find_used is_reged_oper_id pub_evts
    do_pub_evts copy_ids fill_ids sub_evts do_sub_evts enable_evt_manger startup_evt_procer evtid
    make_evtid class_bit class_of event_bit test_bit new_queue
case03_setup_lem = refl

pub case03_teardown_lem : (q : EvtQueue) → case03_teardown operators (enabled q) ≡ ok start
unfolding case03_teardown disable_evt_manger stop_evt_procer unpub_evts unsub_evts Psdb.unsub_evts
    Psdb.unpub_evts free_row_of find_used unreg unreg_oper
case03_teardown_lem q = refl

row-IsSuber : (n : ℕ) → IsSuber 1 (row_at n)
row-IsSuber zero = new_row-IsSuber 1 0 (sub_args 1 1) (0x801 ∷ []) 1 (omega arith)
row-IsSuber (suc zero) = new_row-IsSuber 1 1 (sub_args 2 2) (0x401 ∷ []) 1 (omega arith)
row-IsSuber (suc (suc n)) =
    new_row-IsSuber 1 (suc (suc n)) (sub_args 3 (suc (suc (suc n)))) (0x801 ∷ []) 1 (omega arith)

abbrev rows_to : ℕ → List (Option Row)
rows_to zero = replicate 16 none
rows_to (suc n) = set (rows_to n) n (some (row_at n))

one_more :
    (n : ℕ)
    → n < 16
    → Rows.IsValidRows (IsSuber 1) 16 (rows_to n)
    → Rows.IsValidRows (IsSuber 1) 16 (rows_to (suc n))
one_more n h v =
    Rows.set-placed (IsSuber 1) 16 (rows_to n) v n (row_at n) (omega (arith, h, v.sized))
      (row-IsSuber n)

rows-IsValid : Rows.IsValidRows (IsSuber 1) 16 (rows_to 4)
rows-IsValid = one_more 3 (omega arith) (
    one_more 2 (omega arith)
      (one_more 1 (omega arith) (one_more 0 (omega arith) (fresh_rows (IsSuber 1) 16))))

pub_rows-IsValid :
    Rows.IsValidRows
      (IsPuber 1)
      16
      (some (pub_row 0 0x401) ∷ some (pub_row 1 0x801) ∷ replicate 14 none)
pub_rows-IsValid =
    Rows.set-placed (IsPuber 1) 16 (some (pub_row 0 0x401) ∷ replicate 15 none)
      (Rows.set-placed (IsPuber 1) 16 (replicate 16 none) (fresh_rows (IsPuber 1) 16) 0
        (pub_row 0 0x401) (omega arith) (new_row-IsPuber 1 0 (0x401 ∷ []) 1 (omega arith)))
      1 (pub_row 1 0x801) (omega arith) (new_row-IsPuber 1 1 (0x801 ∷ []) 1 (omega arith))

pub enabled-IsValid : IsValid 1 (enabled (new_queue 256))
enabled-IsValid = record {
  opers = opers-IsValid;
  pub_rows = pub_rows-IsValid;
  sub_rows = rows-IsValid;
  one_queue = refl;
  deep = omega arith;
  deep_small = omega arith;
  queue = (new_queue 256, refl, new_queue-IsValid 256 (omega arith) (omega arith));
}
