-- ===== src/Ioc/Post/Sync.antt =====
-- A synchronous post: the callbacks run in the caller's thread.
use freely_craft_codes.Prelude.{
  ℕ, zero, suc, ◌≡◌, refl, ap, ◌∙◌, sym, Bool, true, false, ◌&&◌, ◌||◌, Bool-cases, inl, inr,
  Option, some, List, ◌∷◌, ◌++◌, append-nil, append_assoc, [], length, arith,
}
use freely_craft_codes.ThinkOs.{TosResult, no_evt_suber}
use freely_craft_codes.Ioc.Mailbox.{EvtDesc}
use freely_craft_codes.Ioc.Conles.{Suber, Context, lock, unlock, with_subers}
use freely_craft_codes.Ioc.Conles.Count.{unlock-lock}
use freely_craft_codes.Ioc.Lock.{Options, Mode, mode_of, LockReply, Keys, admit, admitted}
use freely_craft_codes.Ioc.Course.{done}
use freely_craft_codes.Ioc.Post.{
  Callbacks, Post, Progress, visit, post_each, begin, answer_of, post_locked, post_evt,
}
use freely_craft_codes.Ioc.Post.Hearing.{wants, wanting, has_all, all_stored, hears_lem}

abbrev pub called : List Suber → List (ℕ × ℕ)
called [] = []
called (s ∷ subers) = (s.cb_proc_evt, s.cb_priv) ∷ called subers

-- The result of the last callback, or the given one if there is none.
abbrev pub last_reply : Callbacks → EvtDesc → TosResult → List Suber → TosResult
last_reply callbacks desc r [] = r
last_reply callbacks desc r (s ∷ subers) =
    last_reply callbacks desc (callbacks s.cb_proc_evt s.cb_priv desc) subers

abbrev some_wanting : List Suber → Bool
some_wanting [] = false
some_wanting (s ∷ subers) = true

-- What calling these subscribers makes of the progress.
abbrev heard_by : Post → List Suber → Progress → Progress
heard_by post [] p = p
heard_by post (s ∷ subers) p = heard_by post subers (record p {
  result = post.callbacks s.cb_proc_evt s.cb_priv post.desc;
  found = true;
  calls = p.calls ++ (s.cb_proc_evt, s.cb_priv) ∷ [];
})

visit_sync :
    (post : Post) (s : Suber) (p : Progress)
    → (post.mode.is_sync_mode || post.is_sync_mode) ≡ true
    → visit post s p ≡ done (heard_by post (s ∷ []) p, s)
unfolding visit
visit_sync post s p e = rw e refl

pub and_left : (a b : Bool) → (a && b) ≡ true → a ≡ true
and_left a b e = ground arith

pub and_right : (a b : Bool) → (a && b) ≡ true → b ≡ true
and_right a b e = ground arith

post_each_sync :
    (post : Post) (subers : List Suber) (n : ℕ) (p : Progress)
    → (post.mode.is_sync_mode || post.is_sync_mode) ≡ true
    → length subers ≡ n
    → all_stored subers ≡ true
    → post_each post n subers p ≡ done (heard_by post (wanting post.desc subers) p, subers)
unfolding post_each
post_each_sync post [] zero p e l a = refl
post_each_sync post [] (suc n) p e l a = absurd (omega arith)
post_each_sync post (s ∷ subers) zero p e l a = absurd (omega arith)
post_each_sync post (s ∷ subers) (suc n) p e l a =
    let stored = and_left (has_all s.evt_num s.evt_ids) (all_stored subers) a in
    let later = and_right (has_all s.evt_num s.evt_ids) (all_stored subers) a in
    elim (Bool-cases (wants post.desc s)) [
      | inl w ↦
          rw
            (
              hears_lem post.desc s stored,
              w,
              visit_sync post s p e,
              post_each_sync post subers n (heard_by post (s ∷ []) p) e (omega arith) later,
            )
            refl
      | inr w ↦
          rw (hears_lem post.desc s stored, w, post_each_sync post subers n p e (omega arith) later)
            refl
    ]

heard_by-calls :
    (post : Post) (subers : List Suber) (p : Progress)
    → (heard_by post subers p).calls ≡ p.calls ++ called subers
heard_by-calls post [] p = sym (append-nil p.calls)
heard_by-calls post (s ∷ subers) p =
    heard_by-calls post subers (heard_by post (s ∷ []) p)
    ∙ append_assoc p.calls ((s.cb_proc_evt, s.cb_priv) ∷ []) (called subers)

heard_by-result :
    (post : Post) (subers : List Suber) (p : Progress)
    → (heard_by post subers p).result ≡ last_reply post.callbacks post.desc p.result subers
heard_by-result post [] p = refl
heard_by-result post (s ∷ subers) p = heard_by-result post subers (heard_by post (s ∷ []) p)

heard_by-found :
    (post : Post) (subers : List Suber) (p : Progress)
    → p.found ≡ true
    → (heard_by post subers p).found ≡ true
heard_by-found post [] p f = f
heard_by-found post (s ∷ subers) p f = heard_by-found post subers (heard_by post (s ∷ []) p) refl

-- The answer of a post that starts.
sync_answer :
    (post : Post) (subers : List Suber) (sleeps : List Bool)
    → answer_of (heard_by post subers (begin sleeps))
      ≡ last_reply post.callbacks post.desc no_evt_suber subers
sync_answer post [] sleeps = refl
sync_answer post (s ∷ subers) sleeps =
    let p = heard_by post (s ∷ []) (begin sleeps) in
    rw (heard_by-found post subers p refl) (heard_by-result post subers p)

pub same_context :
    (c : Context) (subers : List Suber)
    → c.evt_subers ≡ some subers
    → unlock (with_subers subers (lock c)) ≡ c
same_context c subers e =
    ap (λ t. unlock (record (lock c) { evt_subers = t })) (sym e) ∙ unlock-lock c

post_locked_sync :
    (callbacks : Callbacks) (desc : EvtDesc) (mode : Mode) (sleeps : List Bool) (c : Context)
    (subers : List Suber)
    → (mode.is_sync_mode || c.is_sync_mode) ≡ true
    → c.evt_subers ≡ some subers
    → length subers ≡ c.max_suber_num
    → all_stored subers ≡ true
    → post_locked callbacks desc mode sleeps (lock c)
      ≡ done (record {
        result = last_reply callbacks desc no_evt_suber (wanting desc subers);
        calls = called (wanting desc subers);
        context = c;
      })
unfolding post_locked
post_locked_sync callbacks desc mode sleeps c subers e t l a =
    let post : Post = record {
      callbacks = callbacks;
      desc = desc;
      mode = mode;
      is_sync_mode = c.is_sync_mode;
    } in
    let all = wanting desc subers in
    ground (
      arith,
      post_each_sync post subers c.max_suber_num (begin sleeps) e l a,
      sync_answer post all sleeps,
      heard_by-calls post all (begin sleeps),
      same_context c subers t,
    )

-- A synchronous post that gets the mutex, on a table of the right size whose subscribers have stored
-- their ids, calls exactly the subscribers that want the event, in the order of the table, and
-- answers what the last of them answers, or TOS_RESULT_NO_EVT_SUBER if there is none. The context
-- is as before, the mutex free again.
pub post_evt-sync :
    (callbacks : Callbacks) (desc : EvtDesc) (options : Option Options) (keys : Keys)
    (reply : LockReply) (sleeps : List Bool) (c : Context) (subers : List Suber)
    → admit (mode_of options) keys reply ≡ admitted
    → ((mode_of options).is_sync_mode || c.is_sync_mode) ≡ true
    → c.evt_subers ≡ some subers
    → length subers ≡ c.max_suber_num
    → all_stored subers ≡ true
    → post_evt callbacks desc options keys reply sleeps c
      ≡ done (record {
        result = last_reply callbacks desc no_evt_suber (wanting desc subers);
        calls = called (wanting desc subers);
        context = c;
      })
unfolding post_evt
post_evt-sync callbacks desc options keys reply sleeps c subers g e t l a =
    ground (arith, g, post_locked_sync callbacks desc (mode_of options) sleeps c subers e t l a)
