-- ===== src/Ioc/Post/Tests.antt =====
-- Posts to a table of three places: two subscribers, one of them with an event queued.
use freely_craft_codes.Prelude.{
  ◌≡◌, refl, true, false, Option, none, some, List, ◌∷◌, ◌++◌, replicate, [], arith,
}
use freely_craft_codes.ThinkOs.{success, no_evt_suber}
use freely_craft_codes.Ioc.Mailbox
use freely_craft_codes.Ioc.Mailbox.{EvtDesc, one, nothing}
use freely_craft_codes.Ioc.Cache.Contents
use freely_craft_codes.Ioc.Conles.{Suber, Context, zero_suber, saved, with_subers}
use freely_craft_codes.Ioc.Lock.{
  Options, mode_of, default_mode, locked, busy, no_keys, set_keys, admit,
}
use freely_craft_codes.Ioc.Course.{done}
use freely_craft_codes.Ioc.Post.{Callbacks, put_event, post_evt}
use freely_craft_codes.Ioc.Post.Hearing.{wanting}
use freely_craft_codes.Ioc.Post.Sync.{called, last_reply, post_evt-sync}
use freely_craft_codes.Ioc.Post.Async.{last_offer, offered_all, post_evt-async}
use freely_craft_codes.Ioc.Post.Blocking.{replaced, put_event-sleeps}
use freely_craft_codes.Ioc.Post.InThread.{ThreadOutcome, post_evt-in_thread}

abbrev desc : EvtDesc
desc = record { seq_id = 0; flags = 0; evt_id = 9 }

abbrev first : Suber
first =
    saved (record { cb_proc_evt = 5; cb_priv = 6; evt_num = 2; evt_ids = 8 ∷ 9 ∷ [] })
      (some (8 ∷ 9 ∷ []))

abbrev second : Suber
second =
    record (saved (record { cb_proc_evt = 7; cb_priv = 0; evt_num = 1; evt_ids = 9 ∷ [] })
      (some (9 ∷ []))) {
        has_thread = true;
        mailbox = record { evt_post_cnt = 1; evt_proc_cnt = 0; evt_desc_queue = desc ∷ [] };
      }

abbrev subers : List Suber
subers = first ∷ zero_suber ∷ second ∷ []

abbrev context : Context
context = record {
  mutex_depth = 0;
  max_suber_num = 3;
  cur_suber_num = 2;
  evt_subers = some subers;
  is_sync_mode = false;
}

abbrev callbacks : Callbacks
callbacks cb priv d = success

abbrev sync : Option Options
sync = some (record { ids = 2; timeout_us = 0 })

abbrev non_block : Option Options
non_block = some (record { ids = 1; timeout_us = 0 })

post_evt-sync_example :
    post_evt callbacks desc sync no_keys locked [] context
    ≡ done (record {
      result = last_reply callbacks desc no_evt_suber (wanting desc subers);
      calls = called (wanting desc subers);
      context = context;
    })
unfolding admit mode_of
post_evt-sync_example =
    post_evt-sync callbacks desc sync no_keys locked [] context subers refl refl refl refl refl

second-Holds : Mailbox.Holds second.mailbox (some desc)
second-Holds = one desc refl (omega arith) refl

empty-Holds : Mailbox.Holds zero_suber.mailbox none
empty-Holds = nothing (record { seq_id = 0; flags = 0; evt_id = 0 }) refl (omega arith) refl

post_evt-async_example :
    post_evt callbacks desc non_block no_keys locked [] context
    ≡ done (record {
      result = last_offer no_evt_suber (wanting desc subers);
      calls = [];
      context = with_subers (offered_all desc subers) context;
    })
unfolding admit mode_of
post_evt-async_example =
    post_evt-async callbacks desc non_block no_keys locked [] context subers refl refl refl refl
      refl refl ((none, empty-Holds), ((none, empty-Holds), ((some desc, second-Holds), tt)))

put_event-sleeps_example :
    put_event default_mode desc (replicate 2 false ++ (true ∷ [])) second
    ≡ done (success, [], replaced desc second)
put_event-sleeps_example =
    put_event-sleeps default_mode desc desc 2 [] second refl refl second-Holds

nothing_cached : Contents.Holds zero_suber.cache []
nothing_cached = record {
  sized = refl;
  few = omega arith;
  narrow = omega arith;
  counted = refl;
  stored = λ i d e. cc;
}

post_evt-in_thread_example :
    ThreadOutcome
      (post_evt callbacks desc none (set_keys 2 no_keys) busy [] context)
      desc
      []
      subers
      2
      second
      context
post_evt-in_thread_example =
    post_evt-in_thread callbacks desc [] context subers 2 second [] refl refl nothing_cached
