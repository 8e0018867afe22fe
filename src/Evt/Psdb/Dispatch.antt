-- ===== src/Evt/Psdb/Dispatch.antt =====
-- `___PLT_EVT_EvtProcer_callEachSuberCbProcEvt`. The callbacks are the clients' code: the dispatcher
-- yields the calls that it makes, in order.
use freely_craft_codes.Prelude.{
  ℕ, zero, suc, Option, none, some, List, [], ◌∷◌, ◌++◌, Run, ok, ◌>>=◌, or_fault, get_elem?,
  if◌then◌else◌,
}
use freely_craft_codes.Evt.Types.{EvtDesc, EvtSubArgs}
use freely_craft_codes.Evt.Slots.{Slots}
use freely_craft_codes.Evt.Id.{selects}
use freely_craft_codes.Evt.Psdb.Rows.{Row}

-- `CbProcEvtSRT_F(EvtSuberID, pEvtDesc, ToObjPriv)`
pub record CbCall : Type 0 where
  pub evt_suber_id : ℕ
  pub sub_args : EvtSubArgs
  pub evt_desc : EvtDesc

-- One id of one row: `pEvtSubArgs` is dereferenced only where the id selects the event.
unfoldable pub call_of_id : Row → ℕ → EvtDesc → Run (List CbCall)
call_of_id row subed desc =
    if selects subed desc.evt_id
    then (do
      args ← or_fault row.evt_sub_args
      ok (record { evt_suber_id = row.evt_oper_id; sub_args = args; evt_desc = desc } ∷ []))
    else ok []

-- `for(num = 0; num <= NumIDs; num++)`: the rounds left, and `num`.
unfoldable pub call_ids : ℕ → ℕ → Row → EvtDesc → Run (List CbCall)
call_ids zero num row desc = ok []
call_ids (suc rounds) num row desc = do
  subed ← or_fault (get_elem? row.evt_ids num)
  first ← call_of_id row subed desc
  rest ← call_ids rounds (suc num) row desc
  ok (first ++ rest)

-- `for(row = 0; row < _mMaySubEvtNumMax; row++)`
unfoldable pub call_rows : ℕ → ℕ → Slots Row → EvtDesc → Run (List CbCall)
call_rows zero idx rows desc = ok []
call_rows (suc rounds) idx rows desc = do
  slot ← or_fault (get_elem? rows idx)
  first ← elim slot [ none ↦ ok [] | some row ↦ call_ids (suc row.num_ids) 0 row desc ]
  rest ← call_rows rounds (suc idx) rows desc
  ok (first ++ rest)

unfoldable pub call_each_suber : ℕ → Option (Slots Row) → EvtDesc → Run (List CbCall)
call_each_suber may_sub_evt_num_max none desc = ok []
call_each_suber may_sub_evt_num_max (some rows) desc = call_rows may_sub_evt_num_max 0 rows desc
