-- ===== src/Ioc/Effect.antt =====
-- Subscribing, unsubscribing and posting together, in the connection-less mode of
-- PlatIF_IOC/_PlatIF_IOC_EventTest.cxx.
pub mod Sub
mod Tests
use freely_craft_codes.Prelude.{
  ℕ, zero, suc, ◌+◌, ◌≡◌, refl, sym, ap, ◌∙◌, Bool, true, false, ◌&&◌, inl, inr, Bool-cases,
  Option-cases, Option, none, some, List, ◌∷◌, [], ok, Run, fault, length, get_elem?, set, or_fault,
  ◌==◌, if◌then◌else◌, arith,
}
use freely_craft_codes.Prelude
use freely_craft_codes.ThinkOs.{success, no_evt_suber}
use freely_craft_codes.Ioc.Mailbox.{EvtDesc}
use freely_craft_codes.Ioc.Conles.{
  Suber, Context, lock, unlock, exited, joins, stopped, cleared_by_all, clear_all, unsub_evt,
}
use freely_craft_codes.Ioc.Conles.Count.{unlock-lock}
use freely_craft_codes.Ioc.Lock.{Options, mode_of, LockReply, Keys, admit, admitted}
use freely_craft_codes.Ioc.Course.{Course, done, ◌>>=◌}
use freely_craft_codes.Ioc.Post.{
  Callbacks, Post, Progress, post_each, begin, post_locked, post_evt, Posted,
}
use freely_craft_codes.Ioc.Post.Hearing.{wants, wanting, has_all, all_stored, hears_lem}
use freely_craft_codes.Ioc.Post.Sync.{same_context}

-- The table after unsubscribing all.
abbrev pub all_cleared : List Suber → List Suber
all_cleared [] = []
all_cleared (s ∷ subers) = cleared_by_all (exited s) ∷ all_cleared subers

-- Do all threads exit when they are told to?
abbrev pub all_join : List Suber → Bool
all_join [] = true
all_join (s ∷ subers) = joins s && all_join subers

abbrev behind : Suber → Run (Option (List Suber)) → Run (Option (List Suber))
behind s (ok none) = ok none
behind s (ok (some subers)) = ok (some (s ∷ subers))
behind s fault = fault

clear_all-cons :
    (n i : ℕ) (s : Suber) (subers : List Suber)
    → clear_all n (suc i) (s ∷ subers) ≡ behind s (clear_all n i subers)
unfolding clear_all
clear_all-cons zero i s subers = refl
clear_all-cons (suc n) i s subers = elim (Option-cases (get_elem? subers i)) [
  | inl e ↦ rw e refl
  | inr (t, e) ↦ elim (Option-cases (stopped t)) [
    | inl loops ↦ ground (arith, e, loops)
    | inr (u, exits) ↦
        ground (arith, e, exits, clear_all-cons n (suc i) s (set subers i (cleared_by_all u)))
  ]
]

stops : (s : Suber) → joins s ≡ true → stopped s ≡ some (exited s)
unfolding stopped
stops s e = rw e refl

clear_all_lem :
    (n : ℕ) (subers : List Suber)
    → length subers ≡ n
    → all_join subers ≡ true
    → clear_all n 0 subers ≡ ok (some (all_cleared subers))
unfolding clear_all
clear_all_lem zero [] e a = refl
clear_all_lem zero (s ∷ subers) e a = absurd (omega arith)
clear_all_lem (suc n) [] e a = absurd (omega arith)
clear_all_lem (suc n) (s ∷ subers) e a =
    let exits : joins s ≡ true = ground (arith, a) in
    let others : all_join subers ≡ true = ground (arith, a) in
    ground (
      arith,
      stops s exits,
      clear_all-cons n 0 (cleared_by_all (exited s)) subers
          ∙ ap (behind (cleared_by_all (exited s))) (clear_all_lem n subers (omega arith) others),
    )

length-all_cleared : (subers : List Suber) → length (all_cleared subers) ≡ length subers
length-all_cleared [] = refl
length-all_cleared (s ∷ subers) = ap suc (length-all_cleared subers)

wants_cleared : (desc : EvtDesc) (s : Suber) → wants desc (cleared_by_all (exited s)) ≡ false
wants_cleared desc s = by_ids s.evt_ids refl
  where
    by_ids :
        (ids : Option (List ℕ)) → s.evt_ids ≡ ids → wants desc (cleared_by_all (exited s)) ≡ false
    by_ids none e = ground arith
    by_ids (some ids) e = ground arith

stored_cleared :
    (s : Suber)
    → has_all (cleared_by_all (exited s)).evt_num (cleared_by_all (exited s)).evt_ids ≡ true
stored_cleared s = by_ids s.evt_ids refl
  where
    by_ids :
        (ids : Option (List ℕ))
        → s.evt_ids ≡ ids
        → has_all (cleared_by_all (exited s)).evt_num (cleared_by_all (exited s)).evt_ids ≡ true
    by_ids none e = ground arith
    by_ids (some ids) e = ground arith

post_each_cleared :
    (post : Post) (subers : List Suber) (n : ℕ) (p : Progress)
    → length subers ≡ n
    → post_each post n (all_cleared subers) p ≡ done (p, all_cleared subers)
unfolding post_each
post_each_cleared post [] zero p l = refl
post_each_cleared post [] (suc n) p l = absurd (omega arith)
post_each_cleared post (s ∷ subers) zero p l = absurd (omega arith)
post_each_cleared post (s ∷ subers) (suc n) p l =
    rw
      (
        hears_lem post.desc (cleared_by_all (exited s)) (stored_cleared s),
        wants_cleared post.desc s,
        post_each_cleared post subers n p (omega arith),
      )
      refl

-- A context without subscribers.
abbrev pub emptied : List Suber → Context → Context
emptied subers c = record c { evt_subers = some (all_cleared subers); cur_suber_num = 0 }

pub unsub_all_lem :
    (c : Context) (subers : List Suber)
    → c.evt_subers ≡ some subers
    → length subers ≡ c.max_suber_num
    → all_join subers ≡ true
    → unsub_evt none c ≡ ok (some (success, emptied subers c))
unfolding unsub_evt
unsub_all_lem c subers t l a =
    ground (arith, clear_all_lem c.max_suber_num subers l a, unlock-lock (emptied subers c))

post_locked_cleared :
    (callbacks : Callbacks) (desc : EvtDesc) (options : Option Options) (sleeps : List Bool)
    (c : Context) (subers : List Suber)
    → length subers ≡ c.max_suber_num
    → post_locked callbacks desc (mode_of options) sleeps (lock (emptied subers c))
      ≡ done (record { result = no_evt_suber; calls = []; context = emptied subers c })
unfolding post_locked
post_locked_cleared callbacks desc options sleeps c subers l =
    let post : Post = record {
      callbacks = callbacks;
      desc = desc;
      mode = mode_of options;
      is_sync_mode = c.is_sync_mode;
    } in
    ground (
      arith,
      post_each_cleared post subers c.max_suber_num (begin sleeps) l,
      same_context (emptied subers c) (all_cleared subers) refl,
    )

-- A post to such a context.
pub post_evt-emptied :
    (callbacks : Callbacks) (desc : EvtDesc) (options : Option Options) (keys : Keys)
    (reply : LockReply) (sleeps : List Bool) (c : Context) (subers : List Suber)
    → admit (mode_of options) keys reply ≡ admitted
    → length subers ≡ c.max_suber_num
    → post_evt callbacks desc options keys reply sleeps (emptied subers c)
      ≡ done (record { result = no_evt_suber; calls = []; context = emptied subers c })
unfolding post_evt
post_evt-emptied callbacks desc options keys reply sleeps c subers g l =
    ground (arith, g, post_locked_cleared callbacks desc options sleeps c subers l)

-- Unsubscribing all, on a table of the right size in which no thread has an event in its cache,
-- succeeds and leaves a counter of 0. A post of any event that then gets the mutex, synchronous or
-- not, answers TOS_RESULT_NO_EVT_SUBER, calls nobody and changes nothing.
pub unsub_all-post :
    (callbacks : Callbacks) (desc : EvtDesc) (options : Option Options) (keys : Keys)
    (reply : LockReply) (sleeps : List Bool) (c : Context) (subers : List Suber)
    → admit (mode_of options) keys reply ≡ admitted
    → c.evt_subers ≡ some subers
    → length subers ≡ c.max_suber_num
    → all_join subers ≡ true
    → (c' : Context) × (unsub_evt none c ≡ ok (some (success, c')))
      × (c'.cur_suber_num ≡ 0)
      × (post_evt callbacks desc options keys reply sleeps c'
          ≡ done (record { result = no_evt_suber; calls = []; context = c' }))
unsub_all-post callbacks desc options keys reply sleeps c subers g t l a = (
  emptied subers c,
  unsub_all_lem c subers t l a,
  refl,
  post_evt-emptied callbacks desc options keys reply sleeps c subers g l,
)
