-- ===== src/Evt/Psdb/Tests.antt =====
-- Tables of two rows, and uses of their laws. Operator 1 has subscribed to the ids 0x301 and 0x202.
use freely_craft_codes.Prelude.{
  ℕ, ◌≡◌, refl, true, some, none, List, [], ◌∷◌, ◌++◌, replicate, set, ok, fault, arith,
}
use freely_craft_codes.ThinkOs.{success}
use freely_craft_codes.Evt.Types.{EvtDesc, EvtSubArgs}
use freely_craft_codes.Evt.Queue.{zero_desc}
use freely_craft_codes.Evt.Slots.{Slots, find_free, find_used}
use freely_craft_codes.Evt.Psdb.Rows.{Row, evt_suber, evt_puber, fill_ids, copy_ids}
use freely_craft_codes.Evt.Psdb.Dispatch.{CbCall, call_each_suber}
use freely_craft_codes.Evt.Psdb.{Table, do_sub_evts, do_pub_evts, unsub_evts, free_row_of}
use freely_craft_codes.Evt.Psdb.Invariant.{
  IsSuber, IsValidRows, table_of, new_row, new_row-IsSuber, set-placed, fresh_rows,
}
use freely_craft_codes.Evt.Psdb.Subscribe.{SubOutcome, subscribe, do_sub_evts_lem}
use freely_craft_codes.Evt.Psdb.Delivery.{
  calls_for, calls_for_ids, call_each_suber_lem, call_each_suber_overrun,
}
use freely_craft_codes.Evt.Psdb.Effect.{
  dispatch, UnsubEffect, sub_then_dispatch, unsub_then_dispatch,
}

abbrev desc : EvtDesc
desc = record zero_desc { evt_id = 0x201 }

abbrev ids : List ℕ
ids = 0x301 ∷ 0x202 ∷ []

abbrev args : EvtSubArgs
args = record { to_obj_priv = 5; cb_proc_evt_srt = 6 }

abbrev suber : ℕ → Row
suber tail_cells = new_row tail_cells evt_suber 1 (some args) ids 2

abbrev subers : ℕ → Slots Row
subers tail_cells = set (replicate 2 none) 0 (some (suber tail_cells))

subers-IsValid : (tail_cells : ℕ) → IsValidRows (IsSuber tail_cells) 2 (subers tail_cells)
subers-IsValid tail_cells =
    set-placed (IsSuber tail_cells) 2 (replicate 2 none) (fresh_rows (IsSuber tail_cells) 2) 0
      (suber tail_cells) (omega arith) (new_row-IsSuber tail_cells 1 args ids 2 (omega arith))

abbrev puber : Row
puber = new_row 1 evt_puber 2 none ids 2

abbrev pubers : Slots Row
pubers = set (replicate 1 none) 0 (some puber)

do_sub_evts_lem_example : SubOutcome 1 true true 3 ids 2 args (table_of 2 (subers 1))
do_sub_evts_lem_example =
    do_sub_evts_lem 1 true true 3 ids 2 args (table_of 2 (subers 1)) (omega arith)
      (subers-IsValid 1)

call_each_suber_lem_example :
    call_each_suber 2 (some (subers 1)) desc ≡ ok (calls_for desc (subers 1))
call_each_suber_lem_example = call_each_suber_lem 0 2 (subers 1) desc (subers-IsValid 1)

call_each_suber_overrun_example : call_each_suber 2 (some (subers 0)) desc ≡ fault
call_each_suber_overrun_example =
    call_each_suber_overrun 2 0 (subers 0) (suber 0) desc (subers-IsValid 0) refl

abbrev subscribed : Table
subscribed = table_of 2 (set (subers 1) 1 (some (new_row 1 evt_suber 3 (some args) ids 2)))

subscribe-second :
    subscribe 1 true true 3 ids 2 args (table_of 2 (subers 1)) ≡ ok (success, subscribed)
unfolding do_sub_evts find_free fill_ids copy_ids
subscribe-second = refl

unsubscribe-first : unsub_evts 1 (table_of 2 (subers 1)) ≡ ok (table_of 2 (set (subers 1) 0 none))
unfolding unsub_evts free_row_of find_used
unsubscribe-first = refl

publish-full : do_pub_evts 1 true 3 ids 2 (table_of 1 pubers) ≡ fault
unfolding do_pub_evts find_free
publish-full = refl

sub_then_dispatch_example :
    (before : List CbCall) × (after : List CbCall) × (dispatch (table_of 2 (subers 1)) desc
      ≡ ok (before ++ after))
    × (dispatch subscribed desc ≡ ok (before ++ (calls_for_ids desc 3 args ids ++ after)))
sub_then_dispatch_example =
    sub_then_dispatch 0 true true 3 ids 2 args 2 (subers 1) subscribed desc (omega arith)
      (subers-IsValid 1) subscribe-second

unsub_then_dispatch_example :
    UnsubEffect 1 (subers 1) (table_of 2 (subers 1)) (table_of 2 (set (subers 1) 0 none)) desc
unsub_then_dispatch_example =
    unsub_then_dispatch 0 1 2 (subers 1) (table_of 2 (set (subers 1) 0 none)) desc
      (subers-IsValid 1) unsubscribe-first
