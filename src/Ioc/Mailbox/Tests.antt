-- ===== src/Ioc/Mailbox/Tests.antt =====
-- A mailbox whose counters are about to wrap.
use freely_craft_codes.Prelude.{◌-◌, ◌^◌, ◌≡◌, refl, none, List, ◌∷◌, ok, arith, []}
use freely_craft_codes.Ioc.Mailbox.{
  EvtDesc, Mailbox, Call, posts, takes, run, run_place, Holds, nothing, run_is_place,
}

abbrev desc : EvtDesc
desc = record { seq_id = 0; flags = 0; evt_id = 9 }

abbrev last : Mailbox
last = record { evt_post_cnt = 2 ^ 64 - 1; evt_proc_cnt = 2 ^ 64 - 1; evt_desc_queue = desc ∷ [] }

abbrev calls : List Call
calls = takes ∷ posts desc ∷ posts desc ∷ takes ∷ posts desc ∷ takes ∷ []

last-Holds : Holds last none
last-Holds = nothing desc refl (omega arith) refl

run_is_place_example : run calls last ≡ ok (run_place calls none)
run_is_place_example = run_is_place calls last none last-Holds
