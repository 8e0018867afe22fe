-- ===== src/Evt/Worker/Tests.antt =====
-- A full queue of two places, whose oldest event is overwritten while it is processed.
use freely_craft_codes.Prelude.{◌≡◌, refl, some, [], ◌∷◌, ok, arith}
use freely_craft_codes.Evt.Types.{EvtDesc}
use freely_craft_codes.Evt.Queue.{EvtQueue, new_queue, zero_desc, stamp, take_head, read_slot}
use freely_craft_codes.Evt.Queue.Invariant.{
  IsValid, after_post, after_take, new_queue-IsValid, after_post-IsValid,
}
use freely_craft_codes.Evt.Worker.{post_all, held_slot_overwritten}

abbrev desc : EvtDesc
desc = record zero_desc { evt_id = 0x102 }

abbrev half : EvtQueue
half = after_post 3 desc (new_queue 2)

abbrev full : EvtQueue
full = after_post 3 desc half

half-IsValid : IsValid half
unfolding new_queue
half-IsValid =
    after_post-IsValid 3 desc (new_queue 2) (new_queue-IsValid 2 (omega arith) (omega arith))
      (λ e. omega arith)

full-IsValid : IsValid full
unfolding new_queue
full-IsValid = after_post-IsValid 3 desc half half-IsValid (λ e. omega arith)

held_slot_overwritten_example :
    (q' : EvtQueue) × (take_head full ≡ ok (some (full.cur_evt_head, after_take full)))
    × (post_all ((5, desc) ∷ []) (after_take full) ≡ ok q')
    × (read_slot q' full.cur_evt_head ≡ ok (stamp 5 full.seq_id desc))
unfolding new_queue
held_slot_overwritten_example = held_slot_overwritten full 5 desc full-IsValid refl
