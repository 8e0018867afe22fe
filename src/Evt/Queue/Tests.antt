-- ===== src/Evt/Queue/Tests.antt =====
-- A queue of two places, and uses of its laws.
use freely_craft_codes.Prelude.{◌≡◌, refl, some, List, [], ◌∷◌, ok, arith}
use freely_craft_codes.ThinkOs.{success, too_many_pubed_events}
use freely_craft_codes.Evt.Types.{EvtDesc}
use freely_craft_codes.Evt.Queue.{new_queue, zero_desc, stamp, do_post, take_head, take_event}
use freely_craft_codes.Evt.Queue.Fifo
use freely_craft_codes.Evt.Queue.Fifo.{Call, posts, takes, Reply, posted, taken}
use freely_craft_codes.Evt.Queue.Invariant.{IsValid, new_queue-IsValid}
use freely_craft_codes.Evt.Queue.Contents.{view}
use freely_craft_codes.Evt.Queue.Refine.{run, run_refines}

abbrev moved : EvtDesc
moved = record zero_desc { evt_id = 0x102 }

abbrev calls : List Call
calls = posts 3 moved ∷ posts 4 moved ∷ posts 5 moved ∷ takes ∷ posts 5 moved ∷ takes ∷ []

two-IsValid : IsValid (new_queue 2)
two-IsValid = new_queue-IsValid 2 (omega arith) (omega arith)

run-calls :
    run calls (new_queue 2)
    ≡ ok (
        posted success (stamp 3 0 moved)
        ∷ posted success (stamp 4 1 moved)
        ∷ posted too_many_pubed_events moved
        ∷ taken (some (stamp 3 0 moved))
        ∷ posted success (stamp 5 2 moved)
        ∷ taken (some (stamp 4 1 moved))
        ∷ [])
unfolding run do_post take_event take_head new_queue
run-calls = refl

run_refines_example : run calls (new_queue 2) ≡ ok (Fifo.run calls (view (new_queue 2)))
run_refines_example = run_refines calls (new_queue 2) two-IsValid
