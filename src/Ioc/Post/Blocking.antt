-- ===== src/Ioc/Post/Blocking.antt =====
-- An asynchronous post that may block waits for the thread of a subscriber whose queue is full.
use freely_craft_codes.Prelude.{
  ℕ, zero, suc, ◌≡◌, refl, Bool, true, false, some, List, ◌∷◌, ◌++◌, replicate,
}
use freely_craft_codes.ThinkOs.{success}
use freely_craft_codes.Ioc.Mailbox
use freely_craft_codes.Ioc.Mailbox.{
  EvtDesc, nothing, one, after_post, after_take, post_empty, post_full, take_full,
}
use freely_craft_codes.Ioc.Mailbox.Steps.{after_take-Holds}
use freely_craft_codes.Ioc.Conles.{Suber}
use freely_craft_codes.Ioc.Lock.{Mode}
use freely_craft_codes.Ioc.Course.{done}
use freely_craft_codes.Ioc.Post.{put_event, after_sleep}
use freely_craft_codes.Ioc.Post.Async.{put_event_idle}

-- The subscriber once its thread has taken the event and the new one is in its place.
abbrev pub replaced : EvtDesc → Suber → Suber
replaced desc s = record s { mailbox = after_post desc (after_take s.mailbox) }

sleep_takes :
    (s : Suber) (held : EvtDesc)
    → Mailbox.Holds s.mailbox (some held)
    → after_sleep true s ≡ done (record s { mailbox = after_take s.mailbox })
sleep_takes s held (one same q h e) = rw (take_full held s.mailbox q h e) refl

put_after_take :
    (mode : Mode) (desc held : EvtDesc) (sleeps : List Bool) (s : Suber)
    → Mailbox.Holds s.mailbox (some held)
    → put_event mode desc sleeps (record s { mailbox = after_take s.mailbox })
      ≡ done (success, sleeps, replaced desc s)
put_after_take mode desc held sleeps s box = elim (after_take-Holds held s.mailbox box) [
  | nothing slot q h e ↦
      put_event_idle mode desc slot sleeps (record s { mailbox = after_take s.mailbox })
        (post_empty desc slot (after_take s.mailbox) q h e)
]

-- A post that may block, to a subscriber whose queue is full: however many sleeps pass before its
-- thread takes the event that is queued, the post goes on, and after the first sleep in which the
-- thread does it puts its own event there and succeeds, with the later sleeps unused.
pub put_event-sleeps :
    (mode : Mode) (desc held : EvtDesc) (n : ℕ) (sleeps : List Bool) (s : Suber)
    → mode.is_non_block ≡ false
    → mode.is_timeout ≡ false
    → Mailbox.Holds s.mailbox (some held)
    → put_event mode desc (replicate n false ++ (true ∷ sleeps)) s
      ≡ done (success, sleeps, replaced desc s)
unfolding put_event
put_event-sleeps mode desc held zero sleeps s b t (one same q h e) =
    rw
      (
        post_full desc s.mailbox h e,
        b,
        t,
        sleep_takes s held (one held q h e),
        put_after_take mode desc held sleeps s (one held q h e),
      )
      refl
put_event-sleeps mode desc held (suc n) sleeps s b t (one same q h e) =
    rw
      (
        post_full desc s.mailbox h e,
        b,
        t,
        put_event-sleeps mode desc held n sleeps s b t (one held q h e),
      )
      refl
