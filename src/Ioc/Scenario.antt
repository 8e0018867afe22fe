-- ===== src/Ioc/Scenario.antt =====
-- The first test of PlatIF_IOC_UT_useGtest/UT_T1_EventConlesMode_Typical.cxx, Case01: one
-- subscriber, and a publisher that posts without options, as fast as it can. The thread of the
-- subscriber takes events at any time: before a post or during one of its sleeps. Every allocation
-- succeeds, and so does every lock of the mutex. The callback's counter, with what the test asserts
-- of it, and the wait of 10 ms for the last callback are not modelled: unsubscribing waits for that
-- one too.
pub mod Passes
mod Tests
use freely_craft_codes.Prelude.{
  ℕ, zero, suc, Bool, true, false, Option, none, some, List, ◌∷◌, ◌++◌, [], replicate,
  if◌then◌else◌,
}
use freely_craft_codes.ThinkOs.{TosResult, success}
use freely_craft_codes.Ioc.EvtId.{keepalive, test_evt_id}
use freely_craft_codes.Ioc.Mailbox.{EvtDesc}
use freely_craft_codes.Ioc.Conles.{SubArgs, Suber, Context, zero_suber, with_subers}
use freely_craft_codes.Ioc.Lock.{locked, no_keys}
use freely_craft_codes.Ioc.Course.{Course, done, aborts, waits, faults, ◌>>=◌, of_run}
use freely_craft_codes.Ioc.Post.{Callbacks, after_sleep}
use freely_craft_codes.Ioc.Api.{auto_link_id, plt_ioc_sub_evt, plt_ioc_unsub_evt, plt_ioc_post_evt}

-- `_UT_Case01_EvtSuberCbProcEvt_F` counts, which is not modelled, and answers TOS_RESULT_SUCCESS.
abbrev pub callbacks : Callbacks
callbacks cb_proc_evt cb_priv desc = success

abbrev pub keepalive_desc : EvtDesc
keepalive_desc = record { seq_id = 0; flags = 0; evt_id = test_evt_id keepalive }

abbrev pub sub_args : SubArgs
sub_args = record {
  cb_proc_evt = 1;
  cb_priv = 2;
  evt_num = 1;
  evt_ids = test_evt_id keepalive ∷ [];
}

-- What the thread does around a post: whether it takes an event before it, and after how many sleeps
-- of the post it takes one.
pub record Turn : Type 0 where
  pub before : Bool
  pub sleeps : ℕ

-- The thread of the first place takes an event.
abbrev pub first_takes : Bool → Context → Course Context
first_takes took c = elim c.evt_subers [
  | none ↦ done c
  | some subers ↦ elim subers [
    | [] ↦ done c
    | suber ∷ rest ↦ (do suber' ← after_sleep took suber; done (with_subers (suber' ∷ rest) c))
  ]
]

-- The first loop of the test, a turn for each post, as many as its `int` counts: the results.
unfoldable pub post_times : List Turn → Context → Course (List TosResult × Context)
post_times [] c = done ([], c)
post_times (turn ∷ turns) c = do
  c1 ← first_takes turn.before c
  posted ←
      plt_ioc_post_evt callbacks auto_link_id keepalive_desc none no_keys locked
        (replicate turn.sleeps false ++ (true ∷ [])) c1
  rest ← post_times turns posted.context
  done (posted.result ∷ rest.0, rest.1)

-- The second loop, with as many posts as its `int` counts, after the thread has exited.
unfoldable pub post_alone : ℕ → Context → Course (List TosResult × Context)
post_alone zero c = done ([], c)
post_alone (suc n) c = do
  posted ← plt_ioc_post_evt callbacks auto_link_id keepalive_desc none no_keys locked [] c
  rest ← post_alone n posted.context
  done (posted.result ∷ rest.0, rest.1)

-- What the test sees: the results of its first subscription and of its unsubscription, those of the
-- posts between them and of the posts after them.
pub record Seen : Type 0 where
  pub subed : TosResult
  pub posted : List TosResult
  pub unsubed : TosResult
  pub posted_again : List TosResult

-- `TEST(EventConlesModeTypical, Case01)`
unfoldable pub typical_case01 : List Turn → ℕ → Context → Course Seen
typical_case01 turns total_again c = do
  subed ← of_run (plt_ioc_sub_evt true true auto_link_id sub_args c)
  elim subed [
    | none ↦ aborts
    | some (r, c1) ↦ (do
      posts ← post_times turns c1
      unsubed ← of_run (plt_ioc_unsub_evt auto_link_id none posts.1)
      elim unsubed [
        | none ↦ waits
        | some (u, c2) ↦ (do
          again ← post_alone total_again c2
          done (record { subed = r; posted = posts.0; unsubed = u; posted_again = again.0 }))
      ])
  ]
