-- ===== src/Ioc/Post/Async.antt =====
-- An asynchronous post: the event goes into the queues of the subscribers, whose threads take it.
use freely_craft_codes.Prelude.{
  ℕ, zero, suc, ◌≡◌, refl, Bool, true, false, ◌||◌, Bool-cases, inl, inr, Option, none, some, List,
  ◌∷◌, [], length, ok, if◌then◌else◌, arith,
}
use freely_craft_codes.ThinkOs.{TosResult, success, timeout, no_evt_suber}
use freely_craft_codes.Ioc.Mailbox
use freely_craft_codes.Ioc.Mailbox.{
  EvtDesc, try_post, nothing, one, after_post, after_take, post_empty, post_full, take_full,
}
use freely_craft_codes.Ioc.Mailbox.Steps.{idle_of}
use freely_craft_codes.Ioc.Conles.{Suber, Context, lock, unlock, with_subers}
use freely_craft_codes.Ioc.Conles.Count.{unlock-lock}
use freely_craft_codes.Ioc.Lock.{Options, Mode, mode_of, LockReply, Keys, admit, admitted}
use freely_craft_codes.Ioc.Thread.{is_idle}
use freely_craft_codes.Ioc.Course.{done}
use freely_craft_codes.Ioc.Post.{
  Callbacks, Post, Progress, put_event, with_thread, visit, post_each, begin, answer_of,
  post_locked, post_evt,
}
use freely_craft_codes.Ioc.Post.Hearing.{wants, wanting, has_all, all_stored, hears_lem}
use freely_craft_codes.Ioc.Post.Sync.{and_left, and_right}

-- A post that must not block puts the event where there is room.
abbrev pub offered : EvtDesc → Suber → Suber
offered desc s =
    if is_idle s
    then record s { mailbox = after_post desc s.mailbox; has_thread = true }
    else with_thread s

abbrev pub offer_reply : Suber → TosResult
offer_reply s = if is_idle s then success else timeout

-- The table after such a post.
abbrev pub offered_all : EvtDesc → List Suber → List Suber
offered_all desc [] = []
offered_all desc (s ∷ subers) =
    (if wants desc s then offered desc s else s) ∷ offered_all desc subers

-- The answer for the last of these subscribers, or the given one if there is none.
abbrev pub last_offer : TosResult → List Suber → TosResult
last_offer r [] = r
last_offer r (s ∷ subers) = last_offer (offer_reply s) subers

-- The queue of each holds an event or none.
abbrev pub AllHold : List Suber → Type 0
AllHold [] = Unit
AllHold (s ∷ subers) = ((held : Option EvtDesc) × Mailbox.Holds s.mailbox held) × AllHold subers

pub put_event_idle :
    (mode : Mode) (desc slot : EvtDesc) (sleeps : List Bool) (s : Suber)
    → try_post desc s.mailbox ≡ ok (success, after_post desc s.mailbox)
    → put_event mode desc sleeps s
      ≡ done (success, sleeps, record s { mailbox = after_post desc s.mailbox })
unfolding put_event
put_event_idle mode desc slot [] s e = rw e refl
put_event_idle mode desc slot (took ∷ sleeps) s e = rw e refl

put_event_full :
    (mode : Mode) (desc : EvtDesc) (sleeps : List Bool) (s : Suber)
    → mode.is_non_block ≡ true
    → try_post desc s.mailbox ≡ ok (timeout, s.mailbox)
    → put_event mode desc sleeps s ≡ done (timeout, sleeps, s)
unfolding put_event
put_event_full mode desc [] s b e = rw (e, b) refl
put_event_full mode desc (took ∷ sleeps) s b e = rw (e, b) refl

put_event_offers :
    (mode : Mode) (desc : EvtDesc) (sleeps : List Bool) (s : Suber) (held : Option EvtDesc)
    → mode.is_non_block ≡ true
    → Mailbox.Holds s.mailbox held
    → put_event mode desc sleeps (with_thread s) ≡ done (offer_reply s, sleeps, offered desc s)
put_event_offers mode desc sleeps s none b (nothing slot q h e) =
    let idle : is_idle s ≡ true = idle_of s.mailbox none (nothing slot q h e) in
    rw idle
      (put_event_idle mode desc slot sleeps (with_thread s) (post_empty desc slot s.mailbox q h e))
put_event_offers mode desc sleeps s (some held) b (one same q h e) =
    let full : is_idle s ≡ false = idle_of s.mailbox (some held) (one held q h e) in
    rw full (put_event_full mode desc sleeps (with_thread s) b (post_full desc s.mailbox h e))

heard : Suber → Progress → Progress
heard s p = record p { result = offer_reply s; found = true }

visit_async :
    (post : Post) (s : Suber) (p : Progress) (held : Option EvtDesc)
    → (post.mode.is_sync_mode || post.is_sync_mode) ≡ false
    → post.mode.is_non_block ≡ true
    → Mailbox.Holds s.mailbox held
    → visit post s p ≡ done (heard s p, offered post.desc s)
unfolding visit heard
visit_async post s p held e b box =
    rw (e, put_event_offers post.mode post.desc p.sleeps s held b box) refl

heard_all : List Suber → Progress → Progress
heard_all [] p = p
heard_all (s ∷ subers) p = heard_all subers (heard s p)

post_each_async :
    (post : Post) (subers : List Suber) (n : ℕ) (p : Progress)
    → (post.mode.is_sync_mode || post.is_sync_mode) ≡ false
    → post.mode.is_non_block ≡ true
    → length subers ≡ n
    → all_stored subers ≡ true
    → AllHold subers
    → post_each post n subers p
      ≡ done (heard_all (wanting post.desc subers) p, offered_all post.desc subers)
unfolding post_each heard_all
post_each_async post [] zero p e b l a boxes = refl
post_each_async post [] (suc n) p e b l a boxes = absurd (omega arith)
post_each_async post (s ∷ subers) zero p e b l a boxes = absurd (omega arith)
post_each_async post (s ∷ subers) (suc n) p e b l a ((held, box), boxes) =
    let stored = and_left (has_all s.evt_num s.evt_ids) (all_stored subers) a in
    let later = and_right (has_all s.evt_num s.evt_ids) (all_stored subers) a in
    let hearing = hears_lem post.desc s stored in
    elim (Bool-cases (wants post.desc s)) [
      | inl w ↦
          rw
            (
              hearing,
              w,
              visit_async post s p held e b box,
              post_each_async post subers n (heard s p) e b (omega arith) later boxes,
            )
            refl
      | inr w ↦ rw (hearing, w, post_each_async post subers n p e b (omega arith) later boxes) refl
    ]

heard_all-result :
    (subers : List Suber) (p : Progress) → (heard_all subers p).result ≡ last_offer p.result subers
unfolding heard_all heard
heard_all-result [] p = refl
heard_all-result (s ∷ subers) p = heard_all-result subers (heard s p)

heard_all-found :
    (subers : List Suber) (p : Progress) → p.found ≡ true → (heard_all subers p).found ≡ true
unfolding heard_all heard
heard_all-found [] p f = f
heard_all-found (s ∷ subers) p f = heard_all-found subers (heard s p) refl

-- Callbacks are left to the threads.
heard_all-calls : (subers : List Suber) (p : Progress) → (heard_all subers p).calls ≡ p.calls
unfolding heard_all heard
heard_all-calls [] p = refl
heard_all-calls (s ∷ subers) p = heard_all-calls subers (heard s p)

async_answer :
    (subers : List Suber) (sleeps : List Bool)
    → answer_of (heard_all subers (begin sleeps)) ≡ last_offer no_evt_suber subers
unfolding heard_all heard
async_answer [] sleeps = refl
async_answer (s ∷ subers) sleeps =
    let p = heard s (begin sleeps) in rw (heard_all-found subers p refl) (heard_all-result subers p)

unlock-lock_table :
    (c : Context) (subers : List Suber)
    → unlock (with_subers subers (lock c)) ≡ with_subers subers c
unlock-lock_table c subers = unlock-lock (with_subers subers c)

post_locked_async :
    (callbacks : Callbacks) (desc : EvtDesc) (mode : Mode) (sleeps : List Bool) (c : Context)
    (subers : List Suber)
    → (mode.is_sync_mode || c.is_sync_mode) ≡ false
    → mode.is_non_block ≡ true
    → c.evt_subers ≡ some subers
    → length subers ≡ c.max_suber_num
    → all_stored subers ≡ true
    → AllHold subers
    → post_locked callbacks desc mode sleeps (lock c)
      ≡ done (record {
        result = last_offer no_evt_suber (wanting desc subers);
        calls = [];
        context = with_subers (offered_all desc subers) c;
      })
unfolding post_locked
post_locked_async callbacks desc mode sleeps c subers e b t l a boxes =
    let post : Post = record {
      callbacks = callbacks;
      desc = desc;
      mode = mode;
      is_sync_mode = c.is_sync_mode;
    } in
    let all = wanting desc subers in
    ground (
      arith,
      post_each_async post subers c.max_suber_num (begin sleeps) e b l a boxes,
      async_answer all sleeps,
      heard_all-calls all (begin sleeps),
      unlock-lock_table c (offered_all desc subers),
    )

-- A post that must not block and gets the mutex, on a table of the right size whose subscribers
-- have stored their ids, puts the event into the queue of each subscriber that wants it and whose
-- queue is empty, starting its thread, and into no other. It answers for the last subscriber that
-- wants it: TOS_RESULT_SUCCESS if its queue was empty, TOS_RESULT_TIMEOUT if not; without one
-- TOS_RESULT_NO_EVT_SUBER. No callback runs meanwhile, and the mutex is free again.
pub post_evt-async :
    (callbacks : Callbacks) (desc : EvtDesc) (options : Option Options) (keys : Keys)
    (reply : LockReply) (sleeps : List Bool) (c : Context) (subers : List Suber)
    → admit (mode_of options) keys reply ≡ admitted
    → ((mode_of options).is_sync_mode || c.is_sync_mode) ≡ false
    → (mode_of options).is_non_block ≡ true
    → c.evt_subers ≡ some subers
    → length subers ≡ c.max_suber_num
    → all_stored subers ≡ true
    → AllHold subers
    → post_evt callbacks desc options keys reply sleeps c
      ≡ done (record {
        result = last_offer no_evt_suber (wanting desc subers);
        calls = [];
        context = with_subers (offered_all desc subers) c;
      })
unfolding post_evt
post_evt-async callbacks desc options keys reply sleeps c subers g e b t l a boxes =
    ground
      (arith, g, post_locked_async callbacks desc (mode_of options) sleeps c subers e b t l a boxes)
