-- ===== src/Ioc/Post.antt =====
-- `__IOC_ConlesMode_postEVT` of PlatIF_IOC/_PlatIF_IOC_EventTest.cxx, from its options to its
-- answer. What a callback returns is an argument, and a callback leaves the context as it is. The
-- threads of the subscribers run meanwhile: the table is given with each subscriber as the post
-- finds it when it gets there, and `sleeps` says for each `usleep(1000)` whether the thread that it
-- waits for has taken its event when it ends.
pub mod Hearing
pub mod InThread
pub mod Sync
pub mod Async
pub mod Blocking
mod Tests
use freely_craft_codes.Prelude.{
  ℕ, zero, suc, Bool, true, false, ◌||◌, Option, none, some, List, ◌∷◌, ◌++◌, [], Run, ok, or_fault,
  get_elem?, set, ◌==◌, if◌then◌else◌,
}
use freely_craft_codes.Prelude
use freely_craft_codes.ThinkOs.{TosResult, timeout, bug, not_found, no_evt_suber, is_success}
use freely_craft_codes.Ioc.Mailbox
use freely_craft_codes.Ioc.Mailbox.{EvtDesc, Mailbox, try_post}
use freely_craft_codes.Ioc.Cache.{Cache, post_cached}
use freely_craft_codes.Ioc.Conles.{Suber, Context, lock, unlock, with_subers}
use freely_craft_codes.Ioc.Lock.{
  Options, Mode, mode_of, LockReply, Keys, Admission, admitted, answered, to_cache, admit,
}
use freely_craft_codes.Ioc.Course.{Course, done, aborts, waits, faults, ◌>>=◌, of_run}

-- What a callback, by its address and its private pointer, returns for an event.
abbrev pub Callbacks : Type 0
Callbacks = ℕ → ℕ → EvtDesc → TosResult

-- `for(; rounds left; EvtIdx++) if( pEvtIDs[EvtIdx] == EvtID )`
unfoldable pub has_evt_id : ℕ → ℕ → ℕ → List ℕ → Course Bool
has_evt_id evt_id zero idx ids = done false
has_evt_id evt_id (suc rounds) idx ids = do
  id ← of_run (or_fault (get_elem? ids idx))
  if id == evt_id then done true else has_evt_id evt_id rounds (suc idx) ids

-- Whether a subscriber wants the event.
abbrev pub hears : EvtDesc → Suber → Course Bool
hears desc suber = if suber.cb_proc_evt == 0 then done false else elim suber.evt_ids [
  | none ↦ done false
  | some ids ↦ has_evt_id desc.evt_id suber.evt_num 0 ids
]

-- What stays the same while a post goes through the subscribers.
pub record Post : Type 0 where
  pub callbacks : Callbacks
  pub desc : EvtDesc
  pub mode : Mode
  pub is_sync_mode : Bool

-- What it keeps: `Result`, `IsCbProcEvt_Found`, the sleeps to come, and the callbacks that it
-- called.
pub record Progress : Type 0 where
  pub result : TosResult
  pub found : Bool
  pub sleeps : List Bool
  pub calls : List (ℕ × ℕ)

abbrev with_taken : Suber → Option (EvtDesc × Mailbox) → Suber
with_taken suber none = suber
with_taken suber (some (desc, m)) = record suber { mailbox = m }

abbrev pub after_sleep : Bool → Suber → Course Suber
after_sleep false suber = done suber
after_sleep true suber = do t ← of_run (Mailbox.take suber.mailbox); done (with_taken suber t)

-- No room: the answer, or what comes `again` after a sleep.
abbrev if_full :
    Mode
    → List Bool
    → Suber
    → Course (TosResult × List Bool × Suber)
    → Course (TosResult × List Bool × Suber)
if_full mode sleeps suber again =
    if mode.is_non_block
    then done (timeout, sleeps, suber)
    else if mode.is_timeout
    then aborts
    else again

-- `do { ... } while(0x20240211)` of the asynchronous mode, once the thread is there.
unfoldable pub put_event :
    Mode → EvtDesc → List Bool → Suber → Course (TosResult × List Bool × Suber)
put_event mode desc [] suber = do
  r ← of_run (try_post desc suber.mailbox)
  if is_success r.0
      then done (r.0, [], record suber { mailbox = r.1 })
      else if_full mode [] suber waits
put_event mode desc (took ∷ sleeps) suber = do
  r ← of_run (try_post desc suber.mailbox)
  if is_success r.0
      then done (r.0, took ∷ sleeps, record suber { mailbox = r.1 })
      else if_full mode (took ∷ sleeps) suber
          (do rested ← after_sleep took suber; put_event mode desc sleeps rested)

-- `if( !pEvtSuber->ASyncThreadID ) pthread_create(...)`, taken to succeed.
abbrev pub with_thread : Suber → Suber
with_thread suber = record suber { has_thread = true }

-- What is done for a subscriber that wants the event.
unfoldable pub visit : Post → Suber → Progress → Course (Progress × Suber)
visit post suber p =
    if post.mode.is_sync_mode || post.is_sync_mode
    then done (
      record p {
        result = post.callbacks suber.cb_proc_evt suber.cb_priv post.desc;
        found = true;
        calls = p.calls ++ (suber.cb_proc_evt, suber.cb_priv) ∷ [];
      },
      suber,
    )
    else (do
      r ← put_event post.mode post.desc p.sleeps (with_thread suber)
      done (record p { result = r.0; found = true; sleeps = r.1 }, r.2))

-- `for(; rounds left; SuberIdx++)`, from the subscriber that `pEvtSubers + SuberIdx` points to.
unfoldable pub post_each : Post → ℕ → List Suber → Progress → Course (Progress × List Suber)
post_each post zero subers p = done (p, subers)
post_each post (suc rounds) [] p = faults
post_each post (suc rounds) (suber ∷ subers) p = do
  wanted ← hears post.desc suber
  v ← if wanted then visit post suber p else done (p, suber)
  rest ← post_each post rounds subers v.0
  done (rest.0, v.1 ∷ rest.1)

-- `__IOC_ConlesMode_postEVT_ASyncThreadCached`; without a subscriber in the keys it aborts.
unfoldable pub post_in_thread : EvtDesc → Keys → Context → Course (TosResult × Context)
post_in_thread desc keys c = elim keys.evt_suber [
  | none ↦ aborts
  | some idx ↦ elim c.evt_subers [
    | none ↦ faults
    | some subers ↦ (do
      suber ← of_run (or_fault (get_elem? subers idx))
      r ← of_run (post_cached desc suber.cache)
      done (r.0, with_subers (set subers idx (record suber { cache = r.1 })) c))
  ]
]

abbrev pub begin : List Bool → Progress
begin sleeps = record { result = bug; found = false; sleeps = sleeps; calls = [] }

abbrev pub answer_of : Progress → TosResult
answer_of p = if p.found then p.result else no_evt_suber

-- What a post gives back.
pub record Posted : Type 0 where
  pub result : TosResult
  pub calls : List (ℕ × ℕ)
  pub context : Context

-- Under the mutex.
unfoldable pub post_locked : Callbacks → EvtDesc → Mode → List Bool → Context → Course Posted
post_locked callbacks desc mode sleeps c = elim c.evt_subers [
  | none ↦ done (record { result = not_found; calls = []; context = unlock c })
  | some subers ↦ (do
    let post : Post = record {
      callbacks = callbacks;
      desc = desc;
      mode = mode;
      is_sync_mode = c.is_sync_mode;
    }
    all ← post_each post c.max_suber_num subers (begin sleeps)
    done (record {
      result = answer_of all.0;
      calls = all.0.calls;
      context = unlock (with_subers all.1 c);
    }))
]

-- `__IOC_ConlesMode_postEVT`; `reply` is what locking the mutex returns.
unfoldable pub post_evt :
    Callbacks → EvtDesc → Option Options → Keys → LockReply → List Bool → Context → Course Posted
post_evt callbacks desc options keys reply sleeps c = elim (admit (mode_of options) keys reply) [
  | answered r ↦ done (record { result = r; calls = []; context = c })
  | to_cache ↦ (do
    r ← post_in_thread desc keys c
    done (record { result = r.0; calls = []; context = r.1 }))
  | admitted ↦ post_locked callbacks desc (mode_of options) sleeps (lock c)
]
