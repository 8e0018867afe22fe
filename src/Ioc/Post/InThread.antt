-- ===== src/Ioc/Post/InThread.antt =====
-- A post by the thread of a subscriber, from its callback, while another thread holds the mutex.
use freely_craft_codes.Prelude.{
  ℕ, ◌≡◌, ◌≤◌, ◌<◌, refl, Bool, none, some, List, ◌∷◌, ◌++◌, [], get_elem?, set, length, dec_lt,
  arith,
}
use freely_craft_codes.ThinkOs.{success, not_enough_resource}
use freely_craft_codes.Ioc.Mailbox.{EvtDesc}
use freely_craft_codes.Ioc.Cache.{Cache}
use freely_craft_codes.Ioc.Cache.Contents.{
  Holds, after_post, post_room, post_full, after_post-Holds,
}
use freely_craft_codes.Ioc.Conles.{Suber, Context, with_subers}
use freely_craft_codes.Ioc.Lock.{busy, no_keys, set_keys, admit, mode_of}
use freely_craft_codes.Ioc.Course.{Course, done}
use freely_craft_codes.Ioc.Post.{Callbacks, post_in_thread, post_evt, Posted}

-- How such a post ends, for a thread whose cache holds these events.
pub data ThreadOutcome (course : Course Posted) (desc : EvtDesc) (held : List EvtDesc)
    (subers : List Suber) (idx : ℕ) (s : Suber) (c : Context) : Type 0 where
  cached :
      (cache : Cache)
      → length held < 4
      → course
        ≡ done (record {
          result = success;
          calls = [];
          context = with_subers (set subers idx (record s { cache = cache })) c;
        })
      → Holds cache (held ++ desc ∷ [])
      → ThreadOutcome course desc held subers idx s c
  refused :
      4 ≤ length held
      → course
        ≡ done (record {
          result = not_enough_resource;
          calls = [];
          context = with_subers (set subers idx s) c;
        })
      → ThreadOutcome course desc held subers idx s c

-- A post without options by the thread of the subscriber at a place, while another thread holds the
-- mutex, does not wait: if the thread has fewer than four events cached the event is cached behind
-- them, with TOS_RESULT_SUCCESS; otherwise it is refused with TOS_RESULT_NOT_ENOUGH_RESOURCE.
-- Nothing else changes and no callback runs.
pub post_evt-in_thread :
    (callbacks : Callbacks) (desc : EvtDesc) (sleeps : List Bool) (c : Context)
    (subers : List Suber) (idx : ℕ) (s : Suber) (held : List EvtDesc)
    → c.evt_subers ≡ some subers
    → get_elem? subers idx ≡ some s
    → Holds s.cache held
    → ThreadOutcome
        (post_evt callbacks desc none (set_keys idx no_keys) busy sleeps c)
        desc
        held
        subers
        idx
        s
        c
unfolding post_evt post_in_thread admit mode_of after_post
post_evt-in_thread callbacks desc sleeps c subers idx s held t read h =
    elim (dec_lt (length held) 4) [
      | yes room ↦
          cached (after_post desc s.cache) room
            (rw (t, read, post_room desc s.cache held h room) refl)
            (after_post-Holds desc s.cache held h room)
      | no full ↦
          let many : 4 ≤ length held = omega arith in
          refused many (rw (t, read, post_full desc s.cache held h many) refl)
    ]
