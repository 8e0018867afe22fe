-- ===== src/Ioc/Scenario/Passes.antt =====
-- The test passes, whenever the thread takes its events.
use freely_craft_codes.Prelude.{
  ℕ, zero, suc, ◌<◌, ◌^◌, ◌≡◌, refl, Bool, true, false, Option, none, some, List, ◌∷◌, ◌++◌, [], ok,
  length, replicate, arith,
}
use freely_craft_codes.ThinkOs.{success, no_evt_suber}
use freely_craft_codes.Ioc.EvtId.{keepalive, test_evt_id, define_evt_id, name_value}
use freely_craft_codes.Ioc.Mailbox
use freely_craft_codes.Ioc.Mailbox.{
  EvtDesc, Mailbox, nothing, one, after_post, after_take, post_empty, take_empty, take_full,
}
use freely_craft_codes.Ioc.Mailbox.Steps.{after_post-Holds, after_take-Holds}
use freely_craft_codes.Ioc.Conles.{
  Suber, Context, initial, zero_suber, saved, find_suber, sub_at, sub_evt,
}
use freely_craft_codes.Ioc.Lock.{default_mode, mode_of, admit, locked, no_keys}
use freely_craft_codes.Ioc.Course.{done}
use freely_craft_codes.Ioc.Post.{has_evt_id, put_event, visit, post_each, post_locked, post_evt}
use freely_craft_codes.Ioc.Post.Async.{put_event_idle}
use freely_craft_codes.Ioc.Post.Blocking.{put_event-sleeps}
use freely_craft_codes.Ioc.Effect.{emptied, unsub_all_lem, post_evt-emptied}
use freely_craft_codes.Ioc.Api.{auto_link_id, plt_ioc_sub_evt, plt_ioc_unsub_evt, plt_ioc_post_evt}
use freely_craft_codes.Ioc.Scenario.{
  callbacks, keepalive_desc, sub_args, Turn, first_takes, post_times, post_alone, typical_case01,
}

-- The subscriber with its queue, and the context that holds it.
abbrev suber : Mailbox → Bool → Suber
suber m t = record (saved sub_args (some (test_evt_id keepalive ∷ []))) {
  mailbox = m;
  has_thread = t;
}

abbrev context : Suber → Context
context s = record initial { cur_suber_num = 1; evt_subers = some (s ∷ replicate 31 zero_suber) }

abbrev sleeps_of : ℕ → List Bool
sleeps_of n = replicate n false ++ (true ∷ [])

put_any :
    (n : ℕ) (m : Mailbox) (held : Option EvtDesc)
    → Mailbox.Holds m held
    → (m' : Mailbox) × (rest : List Bool) × (put_event default_mode keepalive_desc
          (sleeps_of n)
          (suber m true)
        ≡ done (success, rest, suber m' true))
      × Mailbox.Holds m' (some keepalive_desc)
put_any n m none (nothing slot q h e) = (
  after_post keepalive_desc m,
  sleeps_of n,
  put_event_idle default_mode keepalive_desc slot (sleeps_of n) (suber m true)
      (post_empty keepalive_desc slot m q h e),
  after_post-Holds keepalive_desc slot m h e,
)
put_any n m (some held) (one same q h e) = elim (after_take-Holds held m (one held q h e)) [
  | nothing slot q2 h2 e2 ↦ (
    after_post keepalive_desc (after_take m),
    [],
    put_event-sleeps default_mode keepalive_desc held n [] (suber m true) refl refl
        (one held q h e),
    after_post-Holds keepalive_desc slot (after_take m) h2 e2,
  )
]

-- One post.
post_any :
    (n : ℕ) (m : Mailbox) (t : Bool) (held : Option EvtDesc)
    → Mailbox.Holds m held
    → (m' : Mailbox) × (plt_ioc_post_evt callbacks auto_link_id keepalive_desc none no_keys locked
          (sleeps_of n)
          (context (suber m t))
        ≡ done (record { result = success; calls = []; context = context (suber m' true) }))
      × Mailbox.Holds m' (some keepalive_desc)
unfolding plt_ioc_post_evt post_evt post_locked post_each visit has_evt_id admit mode_of test_evt_id
    define_evt_id name_value
post_any n m t held h = let (m', rest, put, h') = put_any n m held h in (m', rw put refl, h')

take_any :
    (took : Bool) (m : Mailbox) (t : Bool) (held : Option EvtDesc)
    → Mailbox.Holds m held
    → (m' : Mailbox) × (held' : Option EvtDesc) × (first_takes took (context (suber m t))
        ≡ done (context (suber m' t)))
      × Mailbox.Holds m' held'
take_any false m t held h = (m, held, refl, h)
take_any true m t none (nothing slot q h e) =
    (m, none, rw (take_empty m e) refl, nothing slot q h e)
take_any true m t (some held) (one same q h e) =
    (after_take m, none, rw (take_full held m q h e) refl, after_take-Holds held m (one held q h e))

posts_any :
    (turns : List Turn) (m : Mailbox) (t : Bool) (held : Option EvtDesc)
    → Mailbox.Holds m held
    → (m' : Mailbox) × (t' : Bool) × (post_times turns (context (suber m t))
        ≡ done (replicate (length turns) success, context (suber m' t')))
unfolding post_times
posts_any [] m t held h = (m, t, refl)
posts_any (turn ∷ turns) m t held h =
    let (m1, held1, takes, h1) = take_any turn.before m t held h in
    let (m2, post, h2) = post_any turn.sleeps m1 t held1 h1 in
    let (m3, t3, posts) = posts_any turns m2 true (some keepalive_desc) h2 in
    (m3, t3, rw (takes, post, posts) refl)

posts_alone :
    (n : ℕ) (c : Context) (subers : List Suber)
    → length subers ≡ c.max_suber_num
    → post_alone n (emptied subers c) ≡ done (replicate n no_evt_suber, emptied subers c)
unfolding post_alone plt_ioc_post_evt
posts_alone zero c subers l = refl
posts_alone (suc n) c subers l =
    let posted =
      post_evt-emptied callbacks keepalive_desc none no_keys locked [] c subers
        (unfold admit mode_of in refl) l in
    rw (posted, posts_alone n c subers l) refl

start_mailbox-Holds : Mailbox.Holds zero_suber.mailbox none
start_mailbox-Holds = nothing (record { seq_id = 0; flags = 0; evt_id = 0 }) refl (omega arith) refl

subs :
    plt_ioc_sub_evt true true auto_link_id sub_args initial
    ≡ ok (some (success, context (suber zero_suber.mailbox false)))
unfolding plt_ioc_sub_evt sub_evt sub_at find_suber
subs = refl

-- From the start of the program, the calls of the test give the results that it asserts of them,
-- for any numbers of posts below 2^31, which the loops' `int` counts, and whenever the thread of
-- the subscriber takes them, if it takes one in the end while a post finds the queue full: the
-- subscription succeeds, so does every post while it lasts, then the unsubscription, and every
-- later post answers TOS_RESULT_NO_EVT_SUBER.
pub typical_case01_lem :
    (turns : List Turn) (total_again : ℕ)
    → length turns < 2 ^ 31
    → total_again < 2 ^ 31
    → typical_case01 turns total_again initial
      ≡ done (record {
        subed = success;
        posted = replicate (length turns) success;
        unsubed = success;
        posted_again = replicate total_again no_evt_suber;
      })
unfolding typical_case01 plt_ioc_unsub_evt
typical_case01_lem turns total_again few few_again =
    let (m, t, posts) = posts_any turns zero_suber.mailbox false none start_mailbox-Holds in
    let all = suber m t ∷ replicate 31 zero_suber in
    rw
      (
        subs,
        posts,
        unsub_all_lem (context (suber m t)) all refl refl refl,
        posts_alone total_again (context (suber m t)) all refl,
      )
      refl
