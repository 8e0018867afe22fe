-- ===== src/Evt/Busy.antt =====
-- `__PLT_EVT_EvtProcer_Thread` of PlatIF_EVT/PlatIF_Event.c as it runs when events are posted
-- during its callbacks, by the callbacks themselves or by other threads. The thread holds a pointer
-- into the queue, so each comparison reads the slot as the posts so far have left it. Between two
-- callbacks nothing is posted.
pub mod Holding
pub mod Dispatch
pub mod Round
pub mod Turns
pub mod Delivery
pub mod Room
mod Tests
use freely_craft_codes.Prelude.{
  ℕ, zero, suc, Option, none, some, List, ◌∷◌, ◌++◌, [], Run, ok, ◌>>=◌, or_fault, get_elem?,
  if◌then◌else◌,
}
use freely_craft_codes.ThinkOs.{TosResult}
use freely_craft_codes.Evt.Types.{EvtDesc}
use freely_craft_codes.Evt.Slots.{Slots}
use freely_craft_codes.Evt.Id.{selects}
use freely_craft_codes.Evt.Queue.{take_head, read_slot}
use freely_craft_codes.Evt.Psdb.Rows.{Row}
use freely_craft_codes.Evt.Psdb.Dispatch.{CbCall}
use freely_craft_codes.Evt.Manager.{uninited, ready, running, Manager}
use freely_craft_codes.Evt.Manager.Interface.{post_evt, first_queue, with_first_queue}

-- The posts made while a callback runs, each with the operator that makes it.
abbrev pub Posts : Type 0
Posts = CbCall → List (ℕ × EvtDesc)

-- Posts one after the other: what each answers, with the descriptor that it leaves to its caller.
unfoldable pub post_evts : List (ℕ × EvtDesc) → Manager → Run (List (TosResult × EvtDesc) × Manager)
post_evts [] m = ok ([], m)
post_evts ((p, desc) ∷ posts) m = do
  posted ← post_evt p desc m
  rest ← post_evts posts posted.2
  ok ((posted.0, posted.1) ∷ rest.0, rest.1)

-- What a part of a round does: the callbacks that it calls, the posts during them, the manager.
abbrev pub Heard : Type 0
Heard = List CbCall × List (TosResult × EvtDesc) × Manager

module _ (during : Posts) (index : ℕ) where
  -- One id of one row.
  unfoldable pub busy_id : Row → ℕ → Manager → Run Heard
  busy_id row subed m = do
    q ← first_queue m
    desc ← read_slot q index
    if selects subed desc.evt_id
        then (do
          args ← or_fault row.evt_sub_args
          let call : CbCall = record {
            evt_suber_id = row.evt_oper_id;
            sub_args = args;
            evt_desc = desc;
          }
          posted ← post_evts (during call) m
          ok (call ∷ [], posted.0, posted.1))
        else ok ([], [], m)

  -- `for(num = 0; num <= NumIDs; num++)`: the rounds left, and `num`.
  unfoldable pub busy_ids : ℕ → ℕ → Row → Manager → Run Heard
  busy_ids zero num row m = ok ([], [], m)
  busy_ids (suc rounds) num row m = do
    subed ← or_fault (get_elem? row.evt_ids num)
    first ← busy_id row subed m
    rest ← busy_ids rounds (suc num) row first.2
    ok (first.0 ++ rest.0, first.1 ++ rest.1, rest.2)

  abbrev pub busy_slot : Option Row → Manager → Run Heard
  busy_slot none m = ok ([], [], m)
  busy_slot (some row) m = busy_ids (suc row.num_ids) 0 row m

  -- `for(row = 0; row < _mMaySubEvtNumMax; row++)`
  unfoldable pub busy_rows : ℕ → ℕ → Slots Row → Manager → Run Heard
  busy_rows zero idx rows m = ok ([], [], m)
  busy_rows (suc rounds) idx rows m = do
    slot ← or_fault (get_elem? rows idx)
    first ← busy_slot slot m
    rest ← busy_rows rounds (suc idx) rows first.2
    ok (first.0 ++ rest.0, first.1 ++ rest.1, rest.2)

-- `___PLT_EVT_EvtProcer_callEachSuberCbProcEvt` on the slot at an index. The table stays as it is:
-- who changes it waits for the lock that the dispatcher holds.
unfoldable pub busy_call_each : Posts → ℕ → Manager → Run Heard
busy_call_each during index m = elim m.sub_table.rows [
  | none ↦ ok ([], [], m)
  | some rows ↦ busy_rows during index m.sub_table.may_evt_num_max 0 rows m
]

-- A round of the thread.
unfoldable pub process_busy : Posts → Manager → Run Heard
process_busy during m = elim m.state [
  | uninited ↦ ok ([], [], m)
  | ready ↦ ok ([], [], m)
  | running ↦ (do
    q ← first_queue m
    taken ← take_head q
    elim taken [
      | none ↦ ok ([], [], m)
      | some (index, q') ↦ busy_call_each during index (with_first_queue q' m)
    ])
]
