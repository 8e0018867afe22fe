-- ===== src/Evt/Manager/Lifecycle.antt =====
-- The start and the end of the event manager in PlatIF_EVT/PlatIF_Event.c: initializing, enabling
-- and disabling it. Whether each allocation succeeds is an argument.
use freely_craft_codes.Prelude.{
  ℕ, zero, suc, Bool, Option, none, some, replicate, Run, ok, fault, get_elem?, set, ltb,
  if◌then◌else◌, ◌>>=◌,
}
use freely_craft_codes.ThinkOs.{
  TosResult, success, bug, bad_state, not_enough_memory, too_many_reged,
}
use freely_craft_codes.Evt.Types.{ModArgs}
use freely_craft_codes.Evt.Slots.{Slots, find_free}
use freely_craft_codes.Evt.Queue.{EvtQueue, new_queue}
use freely_craft_codes.Evt.Manager.{State, uninited, ready, running, Manager}

-- `if( param > 0 ) max = param;`
abbrev pub param_or : ℕ → ℕ → ℕ
param_or param max = if ltb 0 param then param else max

-- The four stages of `PLT_EVT_initEvtManger`, each a limit and a table of NULLs.
abbrev pub with_opers : ModArgs → Manager → Manager
with_opers p m =
    let max = param_or p.may_reg_oper_num_max m.opers.may_reg_oper_num_max in
    record m {
      opers = record { may_reg_oper_num_max = max; reged_oper_objs = some (replicate max none) };
    }

abbrev pub with_pub_table : ModArgs → Manager → Manager
with_pub_table p m =
    let max = param_or p.may_pub_evt_num_max m.pub_table.may_evt_num_max in
    record m { pub_table = record { may_evt_num_max = max; rows = some (replicate max none) } }

abbrev pub with_sub_table : ModArgs → Manager → Manager
with_sub_table p m =
    let max = param_or p.may_sub_evt_num_max m.sub_table.may_evt_num_max in
    record m { sub_table = record { may_evt_num_max = max; rows = some (replicate max none) } }

abbrev pub with_queues : ModArgs → Manager → Manager
with_queues p m = record m {
  may_evt_desc_queue_num_max = param_or p.may_evt_queue_depth_max m.may_evt_desc_queue_num_max;
  evt_queue_procer = some (replicate m.may_evt_queue_num_max none);
}

-- `_RetErrResult`: every table is freed; the limits stay as they were set.
abbrev pub free_tables : Manager → Manager
free_tables m = record m {
  opers = record { may_reg_oper_num_max = m.opers.may_reg_oper_num_max; reged_oper_objs = none };
  pub_table = record { may_evt_num_max = m.pub_table.may_evt_num_max; rows = none };
  sub_table = record { may_evt_num_max = m.sub_table.may_evt_num_max; rows = none };
  evt_queue_procer = none;
}

-- A stage, and what follows it if its `calloc` succeeds.
abbrev pub stage :
    Bool → (Manager → Manager) → (Manager → TosResult × Manager) → Manager → TosResult × Manager
stage calloc_ok alloc next m =
    if calloc_ok then next (alloc m) else (not_enough_memory, free_tables (alloc m))

-- Which of the four allocations succeed.
pub record InitMemory : Type 0 where
  pub for_opers : Bool
  pub for_pub_table : Bool
  pub for_sub_table : Bool
  pub for_queues : Bool

abbrev pub set_state : State → Manager → Manager
set_state s m = record m { state = s }

-- `PLT_EVT_initEvtManger`; `none` is a NULL for `pEvtModArgs`.
unfoldable pub init_evt_manger : InitMemory → Option ModArgs → Manager → TosResult × Manager
init_evt_manger mem args m = elim m.state [
  | uninited ↦ elim args [
    | none ↦ (success, set_state ready m)
    | some p ↦
        stage mem.for_opers (with_opers p)
          (stage mem.for_pub_table (with_pub_table p) (
            stage mem.for_sub_table (with_sub_table p)
              (stage mem.for_queues (with_queues p) (λ m. (success, set_state ready m)))))
          m
  ]
  | ready ↦ (bad_state, m)
  | running ↦ (bad_state, m)
]

-- `PLT_EVT_deinitEvtManger`
unfoldable pub deinit_evt_manger : Manager → Manager
deinit_evt_manger m = m

-- `__PLT_EVT_doEnableEvtManger_ofStartupEvtProcer`
unfoldable pub startup_evt_procer : Bool → Manager → Run (TosResult × Manager)
startup_evt_procer calloc_ok m = elim m.evt_queue_procer [
  | none ↦ ok (bug, m)
  | some queues ↦ do
    free_idx ← find_free m.may_evt_queue_num_max 0 queues
    ok (elim free_idx [
      | none ↦ (too_many_reged, m)
      | some idx ↦
          if calloc_ok
          then (
            success,
            record m {
              evt_queue_procer =
                  some (set queues idx (some (new_queue m.may_evt_desc_queue_num_max)));
            },
          )
          else (not_enough_memory, m)
    ])
]

-- `PLT_EVT_enableEvtManger`
unfoldable pub enable_evt_manger : Bool → Manager → Run (TosResult × Manager)
unfolding startup_evt_procer
enable_evt_manger calloc_ok m = elim m.state [
  | uninited ↦ ok (bad_state, m)
  | ready ↦ (do
    started ← startup_evt_procer calloc_ok m
    elim started.0 [ success ↦ ok (success, set_state running started.1) | r ↦ ok (r, started.1) ])
  | running ↦ ok (bad_state, m)
]

-- The loop of `__PLT_EVT_doDisableEvtManger_ofStopEvtProcer`: the rounds left, `idx`, the table.
unfoldable pub stop_evt_procer : ℕ → ℕ → Slots EvtQueue → Run (Slots EvtQueue)
stop_evt_procer zero idx queues = ok queues
stop_evt_procer (suc rounds) idx queues = elim (get_elem? queues idx) [
  | none ↦ fault
  | some slot ↦ stop_evt_procer rounds (suc idx) (set queues idx none)
]

-- `PLT_EVT_disableEvtManger`
unfoldable pub disable_evt_manger : Manager → Run Manager
disable_evt_manger m = elim m.state [
  | uninited ↦ ok m
  | ready ↦ ok m
  | running ↦ elim m.evt_queue_procer [
    | none ↦ ok (set_state ready m)
    | some queues ↦ do
      stopped ← stop_evt_procer m.may_evt_queue_num_max 0 queues
      ok (set_state ready (record m { evt_queue_procer = some stopped }))
  ]
]
