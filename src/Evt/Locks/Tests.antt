-- ===== src/Evt/Locks/Tests.antt =====
-- The manager is disabled during a callback, and enabled again.
use freely_craft_codes.Prelude.{◌≡◌, refl, true, none, some, ◌∷◌, [], arith}
use freely_craft_codes.Evt.Queue.{new_queue, do_post, take_head}
use freely_craft_codes.Evt.Slots.{find_free}
use freely_craft_codes.Evt.Oper.{is_reged_oper_id}
use freely_craft_codes.Evt.Manager.{Manager, ready}
use freely_craft_codes.Evt.Manager.Interface.{post_evt}
use freely_craft_codes.Evt.Manager.Lifecycle.{
  enable_evt_manger, disable_evt_manger, startup_evt_procer, stop_evt_procer,
}
use freely_craft_codes.Evt.Manager.Sample.{desc, sample}
use freely_craft_codes.Evt.Locks.{
  System, entering, ended, Steps, here, onward, takes, begins, calls, posts, disables_calling,
  enables, writes_in,
}
use freely_craft_codes.Evt.Locks.Readers.{leak_blocks}

abbrev start : System
start = record { point = entering; readers = 0; manager = sample }

abbrev stopped : Manager
stopped = record sample { state = ready; evt_queue_procer = some (none ∷ []) }

abbrev left : System
left = record { point = ended; readers = 1; manager = stopped }

during_callback : Steps 1 start left
unfolding post_evt is_reged_oper_id do_post take_head new_queue disable_evt_manger stop_evt_procer
during_callback = onward (posts 0 desc refl) (
    onward (takes refl refl refl)
      (onward (begins refl) (onward (calls refl) (onward (disables_calling refl refl) here))))

abbrev again : System
again = record { point = entering; readers = 1; manager = sample }

enabled_again : Steps 1 left again
unfolding enable_evt_manger startup_evt_procer find_free
enabled_again = onward (enables true refl refl) here

leak_blocks_example : writes_in enabled_again ≡ 0
unfolding during_callback
leak_blocks_example =
    leak_blocks 1 start left again during_callback enabled_again refl (omega arith)
