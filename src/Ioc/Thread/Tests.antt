-- ===== src/Ioc/Thread/Tests.antt =====
-- Threads that are asked to exit, with an event queued and with an event cached.
use freely_craft_codes.Prelude.{
  ℕ, ◌≡◌, ◌+◌, ◌%◌, refl, zero, suc, true, some, ◌∷◌, ◌++◌, [], ok, get_elem?, arith,
}
use freely_craft_codes.ThinkOs.{success, timeout}
use freely_craft_codes.Ioc.Mailbox
use freely_craft_codes.Ioc.Mailbox.{EvtDesc, Mailbox, one, nothing, try_post, after_take}
use freely_craft_codes.Ioc.Cache.{cached_num, replay_cached, post_cached}
use freely_craft_codes.Ioc.Cache.Contents
use freely_craft_codes.Ioc.Conles.{Suber, zero_suber}
use freely_craft_codes.Ioc.Thread.{
  looking, calling, replaying, exited, is_idle, look, replay, looks, caches, returns, replays,
  posts, told, ◌⟶*◌, here, onward, run_alone,
}
use freely_craft_codes.Ioc.Thread.Exit.{IsSound, exit_leaves_nothing}
use freely_craft_codes.Ioc.Mailbox.Steps.{listed}
use freely_craft_codes.Ioc.Thread.Logs.{queued_by, called_by, cached_by, gone_by, all_by}
use freely_craft_codes.Ioc.Thread.Delivery.{exit_delivers}
use freely_craft_codes.Ioc.Thread.Asked.{emptied, run_alone-exits, asked_with_cached}

abbrev desc : EvtDesc
desc = record { seq_id = 0; flags = 0; evt_id = 9 }

-- One event queued, none cached.
abbrev queued : Suber
queued = record zero_suber {
  cb_proc_evt = 5;
  has_thread = true;
  mailbox = record { evt_post_cnt = 1; evt_proc_cnt = 0; evt_desc_queue = desc ∷ [] };
}

queued-Holds : Mailbox.Holds queued.mailbox (some desc)
queued-Holds = one desc refl (omega arith) refl

none-Holds : Contents.Holds zero_suber.cache []
none-Holds = record {
  sized = refl;
  few = omega arith;
  narrow = omega arith;
  counted = refl;
  stored = λ i d e. cc;
}

queued-IsSound : IsSound (looking, queued)
queued-IsSound = record {
  held = some desc;
  cached = [];
  box = queued-Holds;
  store = none-Holds;
  clean = λ i. refl;
}

abbrev asked : Suber
asked = record queued { should_exit = true }

abbrev taken : Suber
taken = record asked {
  mailbox = record { evt_post_cnt = 1; evt_proc_cnt = 1; evt_desc_queue = desc ∷ [] };
}

life : (looking, queued) ⟶* (exited, taken)
unfolding look replay replay_cached Mailbox.take
life = onward told (
    onward (looks {s = asked} {next = (calling desc, taken)} refl) (
      onward returns (
        onward (replays {s = taken} {next = (looking, taken)} success refl)
          (onward (looks {s = taken} {next = (exited, taken)} refl) here))))

exit_leaves_nothing_example :
    (taken.should_exit ≡ true) × (is_idle taken ≡ true) × (cached_num taken.cache ≡ 0)
exit_leaves_nothing_example = exit_leaves_nothing queued taken queued-IsSound life

run_alone-exits_example : run_alone 4 (looking, asked) ≡ ok (exited, emptied asked (some desc))
run_alone-exits_example = run_alone-exits asked (some desc) refl queued-Holds none-Holds

-- Nothing queued, one event cached.
abbrev caching : Suber
caching = record zero_suber {
  cb_proc_evt = 5;
  has_thread = true;
  should_exit = true;
  cache = record zero_suber.cache {
    evt_post_cached_cnt = 1;
    evt_desc_cached_queue = desc ∷ desc ∷ desc ∷ desc ∷ [];
  };
}

stored_first :
    (i : ℕ) (d : EvtDesc)
    → get_elem? (desc ∷ []) i ≡ some d
    → get_elem? caching.cache.evt_desc_cached_queue ((0 + i) % 4) ≡ some d
stored_first zero d e = e
stored_first (suc i) d e = cc

caching-Holds : Contents.Holds caching.cache (desc ∷ [])
caching-Holds = record {
  sized = refl;
  few = omega arith;
  narrow = omega arith;
  counted = refl;
  stored = stored_first;
}

tries_once : (replaying, caching) ⟶* (replaying, caching)
unfolding replay replay_cached
tries_once = onward (replays {s = caching} {next = (replaying, caching)} success refl) here

asked_with_cached_example : replaying ≡ replaying
asked_with_cached_example =
    asked_with_cached caching caching replaying desc [] refl refl caching-Holds refl tries_once

-- A life with a post that is queued, one that is refused, and an event that is cached and sent.
abbrev other : EvtDesc
other = record { seq_id = 1; flags = 0; evt_id = 8 }

abbrev called : Suber
called = record queued {
  mailbox = record { evt_post_cnt = 1; evt_proc_cnt = 1; evt_desc_queue = desc ∷ [] };
}

abbrev zero_desc : EvtDesc
zero_desc = record { seq_id = 0; flags = 0; evt_id = 0 }

abbrev cached : Suber
cached = record called {
  cache = record {
    evt_post_cached_cnt = 1;
    evt_proc_cached_cnt = 0;
    evt_desc_cached_queue = other ∷ zero_desc ∷ zero_desc ∷ zero_desc ∷ [];
  };
}

abbrev reloaded : Suber
reloaded = record cached {
  mailbox = record { evt_post_cnt = 2; evt_proc_cnt = 1; evt_desc_queue = other ∷ [] };
}

abbrev idle_again : Suber
idle_again = record reloaded {
  mailbox = record { evt_post_cnt = 2; evt_proc_cnt = 2; evt_desc_queue = other ∷ [] };
}

abbrev sent_all : Suber
sent_all = record idle_again { cache = record cached.cache { evt_proc_cached_cnt = 1 } }

abbrev ended : Suber
ended = record sent_all { should_exit = true }

rest_of_life : (calling other, idle_again) ⟶* (exited, ended)
unfolding look replay replay_cached Mailbox.take
rest_of_life = onward returns (
    onward (replays {s = idle_again} {next = (replaying, sent_all)} success refl) (
      onward (replays {s = sent_all} {next = (looking, sent_all)} success refl)
        (onward told (onward (looks {s = ended} {next = (exited, ended)} refl) here))))

busy_life : (looking, queued) ⟶* (exited, ended)
unfolding look replay Mailbox.take post_cached try_post
busy_life = onward (looks {s = queued} {next = (calling desc, called)} refl) (
    onward (caches {d = desc} {s = called} {r = success} {c = cached.cache} other refl) (
      onward
        (posts {p = calling desc} {s = cached} {r = success} {m = reloaded.mailbox} other refl refl)
        (onward
          (posts {p = calling desc} {s = reloaded} {r = timeout} {m = reloaded.mailbox} desc refl
            refl)
          (onward returns (
            onward (replays {s = reloaded} {next = (looking, reloaded)} success refl) (
              onward (looks {s = reloaded} {next = (calling other, idle_again)} refl)
                rest_of_life))))))

exit_delivers_example :
    (listed queued-IsSound.held ++ all_by queued_by busy_life ≡ all_by called_by busy_life)
    × (queued-IsSound.cached ++ all_by cached_by busy_life ≡ all_by gone_by busy_life)
exit_delivers_example = exit_delivers queued ended queued-IsSound busy_life
