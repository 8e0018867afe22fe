-- ===== src/Evt/Manager/Calls.antt =====
-- Sequences of calls on the manager: what the clients, the application and the processor's thread
-- do, each as one step.
use freely_craft_codes.Prelude.{
  ℕ, ◌≤◌, ◌<◌, ◌^◌, Bool, Option, none, some, List, ◌∷◌, length, Run, ok, ◌>>=◌, [],
}
use freely_craft_codes.Evt.Types.{EvtDesc, EvtSubArgs, EvtOperArgs, ModArgs}
use freely_craft_codes.Evt.Queue.{take_event}
use freely_craft_codes.Evt.Psdb.Dispatch.{CbCall, call_each_suber}
use freely_craft_codes.Evt.Manager.{uninited, ready, running, Manager}
use freely_craft_codes.Evt.Manager.Lifecycle.{
  InitMemory, init_evt_manger, deinit_evt_manger, enable_evt_manger, disable_evt_manger,
}
use freely_craft_codes.Evt.Manager.Interface.{
  reg_oper, unreg, pub_evts, unpub_evts, sub_evts, unsub_evts, post_evt, first_queue,
  with_first_queue,
}

-- One round of the loop of `__PLT_EVT_EvtProcer_Thread`, if the slot that it reads is not written in
-- the meantime: the callbacks that it calls. There is a thread only while there is a queue.
unfoldable pub process_one : Manager → Run (List CbCall × Manager)
process_one m = elim m.state [
  | uninited ↦ ok ([], m)
  | ready ↦ ok ([], m)
  | running ↦ (do
    q ← first_queue m
    taken ← take_event q
    elim taken [
      | none ↦ ok ([], m)
      | some (desc, q') ↦ (do
        calls ← call_each_suber m.sub_table.may_evt_num_max m.sub_table.rows desc
        ok (calls, with_first_queue q' m))
    ])
]

-- A call, with the allocations that succeed in it.
pub data Call : Type 0 where
  inits : InitMemory → Option ModArgs → Call
  deinits disables : Call
  enables : Bool → Call
  regs : Bool → EvtOperArgs → Call
  unregs : ℕ → Call
  publishes : Bool → ℕ → List ℕ → ℕ → Call
  unpublishes : ℕ → Call
  subscribes : Bool → Bool → ℕ → List ℕ → ℕ → EvtSubArgs → Call
  unsubscribes : ℕ → Call
  posts : ℕ → EvtDesc → Call
  processes : Call

-- The manager after a call.
unfoldable pub step : ℕ → Call → Manager → Run Manager
step tail_cells (inits mem args) m = ok (init_evt_manger mem args m).1
step tail_cells deinits m = ok (deinit_evt_manger m)
step tail_cells disables m = disable_evt_manger m
step tail_cells (enables calloc_ok) m = enable_evt_manger calloc_ok m >>= λ r. ok r.1
step tail_cells (regs calloc_ok args) m = reg_oper calloc_ok args m >>= λ r. ok r.2
step tail_cells (unregs evt_oper_id) m = unreg evt_oper_id m
step tail_cells (publishes calloc_ok evt_puber_id evt_ids num_ids) m =
    pub_evts tail_cells calloc_ok evt_puber_id evt_ids num_ids m >>= λ r. ok r.1
step tail_cells (unpublishes evt_oper_id) m = unpub_evts evt_oper_id m
step tail_cells (subscribes calloc_ok malloc_ok evt_suber_id evt_ids num_ids args) m =
    sub_evts tail_cells calloc_ok malloc_ok evt_suber_id evt_ids num_ids args m >>= λ r. ok r.1
step tail_cells (unsubscribes evt_oper_id) m = unsub_evts evt_oper_id m
step tail_cells (posts evt_puber_id desc) m = post_evt evt_puber_id desc m >>= λ r. ok r.2
step tail_cells processes m = process_one m >>= λ r. ok r.1

unfoldable pub run : ℕ → List Call → Manager → Run Manager
run tail_cells [] m = ok m
run tail_cells (c ∷ calls) m = step tail_cells c m >>= run tail_cells calls

-- What callers owe: parameters that fit their types, and arrays that have the ids they are said to.
abbrev pub IsSoundParams : Option ModArgs → Type 0
IsSoundParams none = Unit {0}
IsSoundParams (some p) = p.may_evt_queue_depth_max < 2 ^ 16

abbrev pub IsSound : Call → Type 0
IsSound (inits mem args) = IsSoundParams args
IsSound (publishes calloc_ok evt_puber_id evt_ids num_ids) = num_ids ≤ length evt_ids
IsSound (subscribes calloc_ok malloc_ok evt_suber_id evt_ids num_ids args) =
    num_ids ≤ length evt_ids
IsSound _ = Unit {0}

abbrev pub AreSound : List Call → Type 0
AreSound [] = Unit {0}
AreSound (c ∷ calls) = IsSound c × AreSound calls
