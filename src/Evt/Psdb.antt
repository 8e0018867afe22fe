-- ===== src/Evt/Psdb.antt =====
-- The publish and subscribe tables of PlatIF_EVT/PlatIF_Event.c and the dispatcher that reads the
-- latter. Whether an allocation succeeds is an argument, and so is `tail_cells`: how many whole
-- cells of `EvtIDs[0]` the compiler's layout of `_EvtPSDB_Row_T` leaves between that member and the
-- end of the struct (1 where pointers have 8 bytes, 0 where they have 4).
pub mod Rows
pub mod Dispatch
pub mod Invariant
pub mod Subscribe
pub mod Publish
pub mod Free
pub mod Delivery
pub mod Effect
mod Tests
use freely_craft_codes.Prelude.{
  ℕ, suc, Bool, true, false, ◌&&◌, Option, none, some, Run, ok, ◌>>=◌, List, set, ◌==◌,
  if◌then◌else◌,
}
use freely_craft_codes.ThinkOs.{TosResult, success, bug, not_enough_memory, too_many_pubed_events}
use freely_craft_codes.Evt.Types.{EvtSubArgs}
use freely_craft_codes.Evt.Slots.{Slots, find_free, find_used}
use Rows.{Row, Role, evt_puber, evt_suber, fill_ids, is_role}

-- `_mMayPubEvtNumMax` with `_mEvtPSDB_PubTable`, and likewise for the subscriptions
pub record Table : Type 0 where
  pub may_evt_num_max : ℕ
  pub rows : Option (Slots Row)

module _ (tail_cells : ℕ) where
  -- `__PLT_EVT_doPubEvts`, whose loop runs while `row <= _mMayPubEvtNumMax`
  unfoldable pub do_pub_evts : Bool → ℕ → List ℕ → ℕ → Table → Run (TosResult × Table)
  do_pub_evts calloc_ok evt_puber_id evt_ids num_ids t = elim t.rows [
    | none ↦ ok (bug, t)
    | some rows ↦ do
      free_row ← find_free (suc t.may_evt_num_max) 0 rows
      elim free_row [
        | none ↦ ok (too_many_pubed_events, t)
        | some row ↦
            if calloc_ok
            then (do
              cells ← fill_ids tail_cells num_ids evt_ids
              ok (
                success,
                record t {
                  rows = some (
                      set rows row (
                        some (record {
                          role_type = evt_puber;
                          evt_oper_id = evt_puber_id;
                          evt_sub_args = none;
                          num_ids = num_ids;
                          evt_ids = cells;
                        })));
                },
              ))
            else ok (not_enough_memory, t)
      ]
  ]

  -- `__PLT_EVT_doSubEvts`: `calloc` for the row, `malloc` for the copy of the arguments
  unfoldable pub do_sub_evts :
      Bool → Bool → ℕ → List ℕ → ℕ → EvtSubArgs → Table → Run (TosResult × Table)
  do_sub_evts calloc_ok malloc_ok evt_suber_id evt_ids num_ids args t = elim t.rows [
    | none ↦ ok (bug, t)
    | some rows ↦ do
      free_row ← find_free t.may_evt_num_max 0 rows
      elim free_row [
        | none ↦ ok (too_many_pubed_events, t)
        | some row ↦
            if calloc_ok
            then (if malloc_ok
                then (do
                  cells ← fill_ids tail_cells num_ids evt_ids
                  ok (
                    success,
                    record t {
                      rows = some (
                          set rows row (
                            some (record {
                              role_type = evt_suber;
                              evt_oper_id = evt_suber_id;
                              evt_sub_args = some args;
                              num_ids = num_ids;
                              evt_ids = cells;
                            })));
                    },
                  ))
                else ok (not_enough_memory, t))
            else ok (not_enough_memory, t)
      ]
  ]

-- `PLT_EVT_unpubEvts` and `PLT_EVT_unsubEvts`: the first row of the operator is freed.
unfoldable pub free_row_of : Role → ℕ → Table → Run Table
free_row_of role evt_oper_id t = elim t.rows [
  | none ↦ ok t
  | some rows ↦ do
    used_row ←
        find_used (λ r. is_role role r.role_type && r.evt_oper_id == evt_oper_id) t.may_evt_num_max
          0 rows
    ok (elim used_row [ none ↦ t | some row ↦ record t { rows = some (set rows row none) } ])
]

unfoldable pub unpub_evts : ℕ → Table → Run Table
unfolding free_row_of
unpub_evts = free_row_of evt_puber

unfoldable pub unsub_evts : ℕ → Table → Run Table
unfolding free_row_of
unsub_evts = free_row_of evt_suber
