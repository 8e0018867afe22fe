-- ===== src/Evt/Oper.antt =====
-- The registry of operators in PlatIF_EVT/PlatIF_Event.c. Whether `calloc` succeeds is an argument.
-- `pEvtOperID` and `pEvtOperArgs` are dereferenced unchecked: here they are values.
pub mod Invariant
pub mod Register
pub mod Unregister
mod Tests
use freely_craft_codes.Prelude.{
  ℕ, Bool, Option, none, some, Run, ok, ◌>>=◌, or_fault, get_elem?, set, leb, ◌==◌, if◌then◌else◌,
}
use freely_craft_codes.ThinkOs.{
  TosResult, success, bug, not_enough_memory, too_many_reged, tos_yes, tos_no,
}
use freely_craft_codes.Evt.Types.{EvtOperArgs}
use freely_craft_codes.Evt.Slots.{Slots, find_free, find_used}

-- `_TOS_EvtOperObj_T`
pub record OperObj : Type 0 where
  pub evt_oper_id : ℕ
  pub evt_oper_args : EvtOperArgs

-- `_mMayRegOperNumMax` and `_mRegedOperObjs`, `none` for NULL
pub record Opers : Type 0 where
  pub may_reg_oper_num_max : ℕ
  pub reged_oper_objs : Option (Slots OperObj)

-- `__PLT_EVT_isRegedOperID`
unfoldable pub is_reged_oper_id : Opers → ℕ → Run TosResult
is_reged_oper_id o evt_oper_id = elim o.reged_oper_objs [
  | none ↦ ok bug
  | some objs ↦ if leb o.may_reg_oper_num_max evt_oper_id then ok bug else (do
    slot ← or_fault (get_elem? objs evt_oper_id)
    ok (elim slot [
      | none ↦ tos_no
      | some obj ↦ if obj.evt_oper_id == evt_oper_id then tos_yes else tos_no
    ]))
]

-- `__PLT_EVT_doRegOper`: the result, what goes through `pEvtOperID`, and the registry.
unfoldable pub do_reg_oper : Bool → EvtOperArgs → Opers → Run (TosResult × Option ℕ × Opers)
do_reg_oper calloc_ok args o = elim o.reged_oper_objs [
  | none ↦ ok (bug, none, o)
  | some objs ↦ do
    free_idx ← find_free o.may_reg_oper_num_max 0 objs
    ok (elim free_idx [
      | none ↦ (too_many_reged, none, o)
      | some idx ↦
          if calloc_ok
          then (
            success,
            some idx,
            record o {
              reged_oper_objs =
                  some (set objs idx (some (record { evt_oper_id = idx; evt_oper_args = args })));
            },
          )
          else (not_enough_memory, none, o)
    ])
]

-- `PLT_EVT_unregOper`
unfoldable pub unreg_oper : ℕ → Opers → Run Opers
unreg_oper evt_oper_id o = elim o.reged_oper_objs [
  | none ↦ ok o
  | some objs ↦ do
    used_idx ← find_used (λ obj. obj.evt_oper_id == evt_oper_id) o.may_reg_oper_num_max 0 objs
    ok (elim used_idx [
      | none ↦ o
      | some idx ↦ record o { reged_oper_objs = some (set objs idx none) }
    ])
]
