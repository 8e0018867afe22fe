-- ===== src/Evt/Manager/Interface.antt =====
-- The functions of PlatIF_EVT/PlatIF_EventInterfaces.h that clients call, as
-- PlatIF_EVT/PlatIF_Event.c implements them. Whether each allocation succeeds is an argument, and
-- so is `tail_cells`, of Evt/Psdb.
use freely_craft_codes.Prelude.{
  ℕ, Bool, Option, none, some, List, Run, ok, or_fault, get_elem?, set, ◌>>=◌,
}
use freely_craft_codes.ThinkOs.{TosResult, already, bad_state, not_reged}
use freely_craft_codes.Evt.Types.{EvtDesc, EvtSubArgs, EvtOperArgs}
use freely_craft_codes.Evt.Oper.{is_reged_oper_id, do_reg_oper, unreg_oper}
use freely_craft_codes.Evt.Queue.{EvtQueue, do_post}
use freely_craft_codes.Evt.Psdb
use freely_craft_codes.Evt.Psdb.{do_pub_evts, do_sub_evts}
use freely_craft_codes.Evt.Manager.{uninited, ready, running, Manager}

-- `PLT_EVT_regOper`
unfoldable pub reg_oper : Bool → EvtOperArgs → Manager → Run (TosResult × Option ℕ × Manager)
reg_oper calloc_ok args m = elim m.state [
  | uninited ↦ ok (bad_state, none, m)
  | ready ↦ (do
    done ← do_reg_oper calloc_ok args m.opers
    ok (done.0, done.1, record m { opers = done.2 }))
  | running ↦ ok (bad_state, none, m)
]

-- `PLT_EVT_unregOper`, `PLT_EVT_unsubEvts` and `PLT_EVT_unpubEvts`
unfoldable pub unreg : ℕ → Manager → Run Manager
unreg evt_oper_id m = do o ← unreg_oper evt_oper_id m.opers; ok (record m { opers = o })

unfoldable pub unsub_evts : ℕ → Manager → Run Manager
unsub_evts evt_oper_id m = do
  t ← Psdb.unsub_evts evt_oper_id m.sub_table
  ok (record m { sub_table = t })

unfoldable pub unpub_evts : ℕ → Manager → Run Manager
unpub_evts evt_oper_id m = do
  t ← Psdb.unpub_evts evt_oper_id m.pub_table
  ok (record m { pub_table = t })

-- `if( TOS_YES != __PLT_EVT_isRegedOperID(id) ) return TOS_RESULT_NOT_REGED;`
abbrev pub if_reged : {A : Type 0} → ℕ → Manager → Run A → Run A → Run A
if_reged evt_oper_id m refused body = do
  is_reged ← is_reged_oper_id m.opers evt_oper_id
  elim is_reged [ already ↦ body | _ ↦ refused ]

module _ (tail_cells : ℕ) where
  -- `PLT_EVT_pubEvts`
  unfoldable pub pub_evts : Bool → ℕ → List ℕ → ℕ → Manager → Run (TosResult × Manager)
  pub_evts calloc_ok evt_puber_id evt_ids num_ids m =
      if_reged evt_puber_id m (ok (not_reged, m)) (do
        done ← do_pub_evts tail_cells calloc_ok evt_puber_id evt_ids num_ids m.pub_table
        ok (done.0, record m { pub_table = done.1 }))

  -- `PLT_EVT_subEvts`
  unfoldable pub sub_evts :
      Bool → Bool → ℕ → List ℕ → ℕ → EvtSubArgs → Manager → Run (TosResult × Manager)
  sub_evts calloc_ok malloc_ok evt_suber_id evt_ids num_ids args m =
      if_reged evt_suber_id m (ok (not_reged, m)) (do
        done ←
            do_sub_evts tail_cells calloc_ok malloc_ok evt_suber_id evt_ids num_ids args m.sub_table
        ok (done.0, record m { sub_table = done.1 }))

-- `_mEvtQueueProcer[0]`, and what the pointer there points to
abbrev pub first_queue : Manager → Run EvtQueue
first_queue m = do
  queues ← or_fault m.evt_queue_procer
  slot ← or_fault (get_elem? queues 0)
  or_fault slot

abbrev pub with_first_queue : EvtQueue → Manager → Manager
with_first_queue q m = elim m.evt_queue_procer [
  | none ↦ m
  | some queues ↦ record m { evt_queue_procer = some (set queues 0 (some q)) }
]

-- `PLT_EVT_postEvtSRT`: the result, the caller's descriptor afterwards, and the manager.
unfoldable pub post_evt : ℕ → EvtDesc → Manager → Run (TosResult × EvtDesc × Manager)
post_evt evt_puber_id desc m = if_reged evt_puber_id m (ok (not_reged, desc, m)) (do
  q ← first_queue m
  posted ← do_post evt_puber_id desc q
  ok (posted.0, posted.1, with_first_queue posted.2 m))
