-- ===== src/Evt/Busy/Tests.antt =====
-- A queue of two, with a callback that posts the event that it is called with again.
use freely_craft_codes.Prelude.{◌≡◌, refl, List, ◌∷◌, ◌++◌, [], ok, arith}
use freely_craft_codes.ThinkOs.{TosResult}
use freely_craft_codes.Evt.Types.{EvtDesc}
use freely_craft_codes.Evt.Queue.{EvtQueue, new_queue}
use freely_craft_codes.Evt.Queue.Invariant.{after_post, after_post-IsValid, new_queue-IsValid}
use freely_craft_codes.Evt.Queue.{do_post, take_head}
use freely_craft_codes.Evt.Id.{selects}
use freely_craft_codes.Evt.Manager.Interface.{post_evt}
use freely_craft_codes.Evt.Oper.{is_reged_oper_id}
use freely_craft_codes.Evt.Busy.{
  process_busy, busy_call_each, busy_rows, busy_ids, busy_id, post_evts,
}
use freely_craft_codes.Evt.Queue.Contents.{contents}
use freely_craft_codes.Evt.Psdb.Dispatch.{CbCall}
use freely_craft_codes.Evt.Manager.{Manager}
use freely_craft_codes.Evt.Manager.Events.{with_queue}
use freely_craft_codes.Evt.Manager.Invariant.{IsValid}
use freely_craft_codes.Evt.Manager.Sample.{desc, sample, sample-IsValid}
use freely_craft_codes.Evt.Busy.{Posts}
use freely_craft_codes.Evt.Busy.Round.{BusyOutcome, process_busy_lem}
use freely_craft_codes.Evt.Busy.Turns.{Turn, posts, rounds, run_turns, AllFit, accepted, calls_of}
use freely_craft_codes.Evt.Busy.Delivery.{run_turns_lem}

abbrev echo : Posts
echo call = (0, call.evt_desc) ∷ []

abbrev q : EvtQueue
q = after_post 0 desc (new_queue 2)

abbrev loaded : Manager
loaded = with_queue q sample

loaded-IsValid : IsValid 1 loaded
loaded-IsValid = record {
  opers = sample-IsValid.opers;
  pub_rows = sample-IsValid.pub_rows;
  sub_rows = sample-IsValid.sub_rows;
  one_queue = refl;
  deep = omega arith;
  deep_small = omega arith;
  queue = (
    q,
    refl,
    after_post-IsValid 0 desc (new_queue 2) (new_queue-IsValid 2 (omega arith) (omega arith))
        (unfold new_queue in λ e. omega arith),
  );
}

process_busy_lem_example : BusyOutcome echo loaded
unfolding new_queue selects
process_busy_lem_example = process_busy_lem 0 echo loaded loaded-IsValid (omega arith)

abbrev turns : List Turn
turns = rounds echo ∷ posts 7 desc ∷ rounds echo ∷ []

turns-AllFit : AllFit turns loaded
unfolding new_queue selects post_evt is_reged_oper_id do_post process_busy take_head busy_call_each
    busy_rows busy_ids busy_id post_evts
turns-AllFit = (omega arith, (omega arith, tt))

run_turns_lem_example :
    (calls : List CbCall) × (rs : List (TosResult × EvtDesc)) × (q' : EvtQueue) × (run_turns turns
        loaded
      ≡ ok (calls, rs, with_queue q' loaded))
    × IsValid 1 (with_queue q' loaded)
    × (calls_of loaded.sub_table.rows (contents q ++ accepted rs)
        ≡ calls ++ calls_of loaded.sub_table.rows (contents q'))
run_turns_lem_example = run_turns_lem 0 turns q loaded loaded-IsValid refl refl turns-AllFit
