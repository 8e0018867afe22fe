-- ===== src/Ioc/Cache/Tests.antt =====
-- A cache whose counters are about to wrap, filled past its limit and replayed.
use freely_craft_codes.Prelude.{ℕ, ◌-◌, ◌^◌, ◌≡◌, refl, List, ◌∷◌, [], ok, replicate, arith}
use freely_craft_codes.ThinkOs.{TosResult, success, timeout}
use freely_craft_codes.Ioc.Mailbox.{EvtDesc}
use freely_craft_codes.Ioc.Cache.{Cache}
use freely_craft_codes.Ioc.Cache.Refine.{Call, posts, replays, run, run_list, run_is_list}
use freely_craft_codes.Ioc.Cache.Contents.{Holds}

abbrev desc : ℕ → ℕ → EvtDesc
desc flags evt_id = record { seq_id = 0; flags = flags; evt_id = evt_id }

abbrev nearly : Cache
nearly = record {
  evt_post_cached_cnt = 2 ^ 64 - 2;
  evt_proc_cached_cnt = 2 ^ 64 - 2;
  evt_desc_cached_queue = replicate 4 (desc 0 0);
}

nearly-Holds : Holds nearly []
nearly-Holds = record {
  sized = refl;
  few = omega arith;
  narrow = omega arith;
  counted = refl;
  stored = λ i d e. cc;
}

abbrev yes : EvtDesc → TosResult
yes d = success

abbrev no : EvtDesc → TosResult
no d = timeout

abbrev calls : List Call
calls =
    replays yes
    ∷ posts (desc 0 1)
    ∷ posts (desc 1 2)
    ∷ replays no
    ∷ posts (desc 0 3)
    ∷ posts (desc 0 4)
    ∷ posts (desc 0 5)
    ∷ replays yes
    ∷ replays no
    ∷ []

run_is_list_example : run calls nearly ≡ ok (run_list calls [])
run_is_list_example = run_is_list calls nearly [] nearly-Holds
