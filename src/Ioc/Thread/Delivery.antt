-- ===== src/Ioc/Thread/Delivery.antt =====
-- What goes through the queue and the cache of a subscriber's thread.
use freely_craft_codes.Prelude.{
  ◌≡◌, refl, sym, ap, subst, ◌∙◌, inl, inr, Bool-cases, true, Option, none, some, List, ◌∷◌, ◌++◌,
  [], append-nil, ok, ok-injective, length, arith,
}
use freely_craft_codes.ThinkOs.{TosResult}
use freely_craft_codes.Ioc.Mailbox.{EvtDesc}
use freely_craft_codes.Ioc.Mailbox.Steps.{
  idle_of, is_none, listed, let_in, try_post-Holds, after_take-Holds,
}
use freely_craft_codes.Ioc.Cache.{Attempt, sent, kept, dropped, attempt, attempted}
use freely_craft_codes.Ioc.Cache.Contents.{
  cached_num_of, left_after, attempted-Holds, post_cached-Holds, replay_empty, replay_first,
}
use freely_craft_codes.Ioc.Conles.{Suber}
use freely_craft_codes.Ioc.Thread.{
  Point, looking, exited, is_idle, look, replay, point_after, answer_while, Step, looks, caches,
  returns, replays, posts, told, ◌⟶*◌, here, onward,
}
use freely_craft_codes.Ioc.Thread.Moves.{
  look_exits, look_waits, look_takes, replay_busy, replay_nothing, replay_offers,
}
use freely_craft_codes.Ioc.Thread.Logs.{
  queued_by, started, called_by, cached_by, gone_of, gone, gone_by, all_by, Keeps, Through, stays,
  then-Through,
}
use freely_craft_codes.Ioc.Thread.Exit.{IsSound, exit_leaves_nothing}

look-Through :
    (s : Suber) (next : Point × Suber) (held : Option EvtDesc) (cached : List EvtDesc)
    → Keeps s held cached
    → look s ≡ ok next
    → Through next.1 held cached [] (started next.0) [] []
look-Through s next none cached k e = elim (Bool-cases s.should_exit) [
  | inl x ↦
      subst (λ n. Through n.1 none cached [] (started n.0) [] [])
        (ok-injective (sym (look_exits s x (idle_of s.mailbox none k.box)) ∙ e)) (stays k)
  | inr x ↦
      subst (λ n. Through n.1 none cached [] (started n.0) [] [])
        (ok-injective (sym (look_waits s x (idle_of s.mailbox none k.box)) ∙ e)) (stays k)
]
look-Through s next (some desc) cached k e =
    subst (λ n. Through n.1 (some desc) cached [] (started n.0) [] [])
      (ok-injective (sym (look_takes s desc k.box) ∙ e))
      (record {
        held' = none;
        cached' = cached;
        keeps = record { box = after_take-Holds desc s.mailbox k.box; store = k.store };
        queue = refl;
        cache = append-nil cached;
      })

offered-Through :
    (a : Attempt) (desc : EvtDesc) (s : Suber) (held : Option EvtDesc) (cached : List EvtDesc)
    → Keeps s held (desc ∷ cached)
    → let c = attempted a s.cache in
      Through
        (record s { cache = c })
        held
        (desc ∷ cached)
        []
        []
        []
        (gone_of (ok (some (desc, a, c))))
offered-Through a desc s held cached k = record {
  held' = held;
  cached' = left_after a desc cached;
  keeps = record { box = k.box; store = attempted-Holds a desc s.cache cached k.store };
  queue = append-nil (listed held);
  cache = split a;
}
  where
    split :
        (a : Attempt)
        → (desc ∷ cached) ++ []
          ≡ gone_of (ok (some (desc, a, attempted a s.cache))) ++ left_after a desc cached
    split sent = append-nil (desc ∷ cached)
    split kept = append-nil (desc ∷ cached)
    split dropped = append-nil (desc ∷ cached)

replay-Through :
    (answer : EvtDesc → TosResult) (s : Suber) (next : Point × Suber) (held : Option EvtDesc)
    (cached : List EvtDesc)
    → Keeps s held cached
    → replay answer s ≡ ok next
    → Through next.1 held cached [] [] [] (gone answer s)
replay-Through answer s next held cached k e = elim (Bool-cases (is_idle s)) [
  | inr b ↦ ends (looking, s) [] cached (replay_busy answer s b) (rw b refl) (stays k)
  | inl i ↦ idle i cached k
]
  where
    ends :
        (n : Point × Suber) (g cached : List EvtDesc)
        → replay answer s ≡ ok n
        → g ≡ gone answer s
        → Through n.1 held cached [] [] [] g
        → Through next.1 held cached [] [] [] (gone answer s)
    ends n g cached runs same t =
        subst (Through next.1 held cached [] [] []) same
          (subst (λ n. Through n.1 held cached [] [] [] g) (ok-injective (sym runs ∙ e)) t)

    idle :
        is_idle s ≡ true
        → (cached : List EvtDesc) → Keeps s held cached
        → Through next.1 held cached [] [] [] (gone answer s)
    idle i [] k =
        ends (looking, s) [] [] (replay_nothing answer s i k.store)
          (rw (i, replay_empty answer s.cache k.store) refl) (stays k)
    idle i (desc ∷ cached) k =
        let a = attempt (answer desc) desc in
        ends (point_after a, record s { cache = attempted a s.cache })
          (gone_of (ok (some (desc, a, attempted a s.cache)))) (desc ∷ cached)
          (replay_offers answer s desc cached i k.store)
          (rw (i, replay_first answer desc s.cache cached k.store) refl)
          (offered-Through a desc s held cached k)

Step-Through :
    (a b : Point × Suber) (step : Step a b) (held : Option EvtDesc) (cached : List EvtDesc)
    → Keeps a.1 held cached
    → Through b.1 held cached
        (queued_by a b step)
        (called_by a b step)
        (cached_by a b step)
        (gone_by a b step)
Step-Through _ _ (looks {s} {next} p) held cached k = look-Through s next held cached k p
Step-Through _ _ (caches {d} {s} {r} {c} desc p) held cached k = record {
  held' = held;
  cached' = cached ++ let_in r desc;
  keeps = record { box = k.box; store = post_cached-Holds desc s.cache c r cached k.store p };
  queue = append-nil (listed held);
  cache = refl;
}
Step-Through _ _ returns held cached k = stays k
Step-Through _ _ (replays {s} {next} r p) held cached k =
    replay-Through (answer_while s.should_exit r) s next held cached k p
Step-Through _ _ (posts {p} {s} {r} {m} desc e q) held cached k =
    let (d, box, now) = try_post-Holds desc s.mailbox m r held k.box q in
    record {
      held' = some d;
      cached' = cached;
      keeps = record { box = box; store = k.store };
      queue = now;
      cache = append-nil cached;
    }
Step-Through _ _ (told {p} {s}) held cached k = stays (record { box = k.box; store = k.store })

-- In every interleaving of the thread with its callback, with posters and with whoever asks it to
-- exit, from a subscriber that holds something in its queue and its cache: nothing is lost, doubled
-- or overtaken. What the queue held at first, followed by the events that posts put into it with
-- TOS_RESULT_SUCCESS, is what the thread hands to its callback, in this order, followed by what the
-- queue holds in the end. What the cache held at first, followed by the events that the callback
-- cached with success, is what left the cache, posted again or dropped, in this order, followed by
-- what the cache holds in the end.
pub steps-Through :
    {a b : Point × Suber} (steps : a ⟶* b) (held : Option EvtDesc) (cached : List EvtDesc)
    → Keeps a.1 held cached
    → Through b.1 held cached
        (all_by queued_by steps)
        (all_by called_by steps)
        (all_by cached_by steps)
        (all_by gone_by steps)
steps-Through here held cached k = stays k
steps-Through (onward {a} {b} step steps) held cached k =
    let first = Step-Through a b step held cached k in
    then-Through first (steps-Through steps first.held' first.cached' first.keeps)

-- An exited thread has delivered everything: what its queue held at first and all that posts put
-- into it went to the callback, in this order, and all that was cached has left the cache in order.
pub exit_delivers :
    (s t : Suber) (v : IsSound (looking, s)) (steps : (looking, s) ⟶* (exited, t))
    → (listed v.held ++ all_by queued_by steps ≡ all_by called_by steps)
      × (v.cached ++ all_by cached_by steps ≡ all_by gone_by steps)
exit_delivers s t v steps =
    let (asked, idle, none_cached) = exit_leaves_nothing s t v steps in
    let all = steps-Through steps v.held v.cached (record { box = v.box; store = v.store }) in
    let no_event : listed all.held' ≡ [] =
      no_listed all.held' (sym (idle_of t.mailbox all.held' all.keeps.box) ∙ idle) in
    let empty : all.cached' ≡ [] =
      no_length all.cached'
        (sym (cached_num_of t.cache all.cached' all.keeps.store) ∙ none_cached) in
    (
      all.queue
          ∙ ap (λ l. all_by called_by steps ++ l) no_event
          ∙ append-nil (all_by called_by steps),
      all.cache ∙ ap (λ l. all_by gone_by steps ++ l) empty ∙ append-nil (all_by gone_by steps),
    )
  where
    no_listed : (held : Option EvtDesc) → is_none held ≡ true → listed held ≡ []
    no_listed none e = refl
    no_listed (some desc) e = cc

    no_length : (cached : List EvtDesc) → length cached ≡ 0 → cached ≡ []
    no_length [] e = refl
    no_length (desc ∷ cached) e = absurd (omega (arith, e))
