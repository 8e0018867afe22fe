-- ===== src/Evt/Case02.antt =====
-- The second test of PlatIF_EVT_UT_useGtest/UT_T1_PubSubEvt_Typical.cxx, Case02, as a run of the
-- manager: two threads post, one of them keep-alive events and the other one numbered messages, and
-- three operators subscribe to the first, the second and both. `moves` is the order in which the two
-- threads and the thread of the manager get the lock of the queue. Every allocation succeeds. The
-- callbacks post the semaphores for which the test waits before it disables the manager.
pub mod Start
pub mod Events
pub mod Turns
pub mod Counts
pub mod Passes
mod Tests
use freely_craft_codes.Prelude.{
  ℕ, zero, suc, ◌+◌, ◌*◌, ◌/◌, ◌%◌, ◌-◌, true, false, Bool, ◌&&◌, Option, none, some, List, ◌∷◌,
  ◌++◌, [], Run, ok, ◌==◌, ltb, replicate, if◌then◌else◌, ◌>>=◌,
}
use freely_craft_codes.ThinkOs.{TosResult, u32, ulong}
use freely_craft_codes.Evt.Types.{EvtDesc, EvtSubArgs, EvtOperArgs}
use freely_craft_codes.Evt.Id.Names.{TestEvent, msgdata, test_evtid}
use freely_craft_codes.Evt.Queue.{zero_desc}
use freely_craft_codes.Evt.Psdb.Dispatch.{CbCall}
use freely_craft_codes.Evt.Manager.{Manager}
use freely_craft_codes.Evt.Manager.Lifecycle.{enable_evt_manger}
use freely_craft_codes.Evt.Manager.Interface.{reg_oper, pub_evts, sub_evts}
use freely_craft_codes.Evt.Busy.Turns.{Turn, posts, rounds, run_turns}
use freely_craft_codes.Evt.Counter.{Priv, zero_priv, count_call, is_posted}
use freely_craft_codes.Evt.Scenario.{
  or_invalid, keepalive_id, keepalive_desc, Operators, case01_teardown,
}

-- `TOS_EVTID_TEST_MSGDATA`
abbrev pub msgdata_id : ℕ
msgdata_id = test_evtid TestEvent.msgdata

-- `EvtData.U32[0]`, as the first bytes of the union: the test writes and reads it as the same
-- member.
abbrev pub with_u32 : ℕ → EvtDesc → EvtDesc
with_u32 n desc = record desc {
  evt_data = n % 256 ∷ (n / 256) % 256 ∷ (n / 65536) % 256 ∷ (n / 16777216) % 256 ∷ replicate 28 0;
}

abbrev pub u32_of : List ℕ → ℕ
u32_of (b0 ∷ b1 ∷ b2 ∷ b3 ∷ rest) = b0 + b1 * 256 + b2 * 65536 + b3 * 16777216
u32_of _ = 0

abbrev pub msgdata_desc : ℕ → EvtDesc
msgdata_desc n = with_u32 n (record zero_desc { evt_id = msgdata_id })

-- A subscriber: registered, and subscribed with its callback and its private data.
abbrev pub suber_with : ℕ → ℕ → ℕ → List ℕ → ℕ → Manager → Run (List TosResult × ℕ × Manager)
suber_with tail_cells mod_obj_id cb evt_ids num_ids m = do
  reg ← reg_oper true (record { mod_obj_id = mod_obj_id }) m
  sub ←
      sub_evts tail_cells true true (or_invalid reg.1) evt_ids num_ids
        (record { to_obj_priv = cb; cb_proc_evt_srt = cb }) reg.2
  ok (reg.0 ∷ sub.0 ∷ [], or_invalid reg.1, sub.1)

-- Up to `PLT_EVT_enableEvtManger`.
unfoldable pub case02_setup : ℕ → Manager → Run (Operators × Manager)
case02_setup tail_cells m = do
  a ← reg_oper true (record { mod_obj_id = 0xFFFE }) m
  published ← pub_evts tail_cells true (or_invalid a.1) (keepalive_id ∷ msgdata_id ∷ []) 2 a.2
  b ← suber_with tail_cells 0xFFFD 1 (keepalive_id ∷ []) 1 published.1
  c ← suber_with tail_cells 0xFFFC 2 (msgdata_id ∷ []) 1 b.2
  d ← suber_with tail_cells 0xFFFB 3 (keepalive_id ∷ msgdata_id ∷ []) 2 c.2
  enabled ← enable_evt_manger true d.2
  ok (
    record {
      results = a.0 ∷ published.0 ∷ (b.0 ++ (c.0 ++ (d.0 ++ enabled.0 ∷ [])));
      puber_a = or_invalid a.1;
      suber_b = b.1;
      suber_c = c.1;
      suber_d = d.1;
    },
    enabled.1,
  )

-- Who goes on: one of the posting threads, or the thread of the manager with a round. A post during
-- the callbacks of a round stands after the round: where the queue is never full it does not reach
-- the slot that the thread reads, and Evt/Busy shows that the round is the same.
pub data Move : Type 0 where
  posts_keepalive posts_msgdata takes : Move

-- The loops of the posting threads, `__UT_ThreadCase02_postEvt_EVTID_TEST_KEEPALIVE` and
-- `__UT_ThreadCase02_postEvt_EVTID_TEST_MSGDATA`, in the order of the moves; `EvtCnt` of the
-- second. Each thread posts as often as its `int` counts.
abbrev pub turns_of : ℕ → ℕ → List Move → List Turn
turns_of puber evt_cnt [] = []
turns_of puber evt_cnt (posts_keepalive ∷ moves) =
    posts puber keepalive_desc ∷ turns_of puber evt_cnt moves
turns_of puber evt_cnt (posts_msgdata ∷ moves) =
    posts puber (msgdata_desc evt_cnt) ∷ turns_of puber (suc evt_cnt) moves
turns_of puber evt_cnt (takes ∷ moves) = rounds (λ call. []) ∷ turns_of puber evt_cnt moves

abbrev pub results_of : List (TosResult × EvtDesc) → List TosResult
results_of [] = []
results_of (r ∷ rs) = r.0 ∷ results_of rs

-- The calls of one callback, each with what the one before it has left.
abbrev pub proc_calls : {S : Type 0} → (CbCall → S → S) → ℕ → List CbCall → S → S
proc_calls proc cb [] s = s
proc_calls proc cb (call ∷ calls) s =
    if call.sub_args.cb_proc_evt_srt == cb
    then proc_calls proc cb calls (proc call s)
    else proc_calls proc cb calls s

-- `__UT_Case02_CbProcEvtSRT_ofB`, which counts in `KeepAliveProcedCnt`.
abbrev pub proc_b : ℕ → ℕ → CbCall → Priv → Priv
proc_b total_keepalive evt_suber_id call s = count_call total_keepalive (record s {
  expected =
      (call.evt_suber_id == evt_suber_id && call.evt_desc.evt_id == keepalive_id) && s.expected;
})

-- The private data of C: `MsgDataProcedCnt` with the semaphore, and `MsgDataNextValue`.
pub record MsgPriv : Type 0 where
  pub counter : Priv
  pub next_value : ℕ

-- `__UT_Case02_CbProcEvtSRT_ofC`
abbrev pub proc_c : ℕ → ℕ → CbCall → MsgPriv → MsgPriv
proc_c total_msgdata evt_suber_id call s = record {
  counter = count_call total_msgdata (record s.counter {
    expected =
        ((call.evt_suber_id == evt_suber_id && call.evt_desc.evt_id == msgdata_id)
          && u32_of call.evt_desc.evt_data == s.next_value)
        && s.counter.expected;
  });
  next_value = u32 (s.next_value + 1);
}

-- The private data of D.
pub record BothPriv : Type 0 where
  pub keepalive_cnt : ℕ
  pub msgdata_cnt : ℕ
  pub next_value : ℕ
  pub sem_posts : ℕ
  pub expected : Bool

abbrev pub is_last : ℕ → ℕ → BothPriv → Bool
is_last total_keepalive total_msgdata s =
    s.keepalive_cnt == total_keepalive && s.msgdata_cnt == total_msgdata

abbrev pub post_if_last : ℕ → ℕ → BothPriv → BothPriv
post_if_last total_keepalive total_msgdata s = record s {
  sem_posts = if is_last total_keepalive total_msgdata s then s.sem_posts + 1 else s.sem_posts;
}

-- `__UT_Case02_CbProcEvtSRT_ofD`
abbrev pub proc_d : ℕ → ℕ → ℕ → CbCall → BothPriv → BothPriv
proc_d total_keepalive total_msgdata evt_suber_id call s =
    if call.evt_desc.evt_id == keepalive_id
    then post_if_last total_keepalive total_msgdata (record s {
      keepalive_cnt = ulong (s.keepalive_cnt + 1);
      expected = call.evt_suber_id == evt_suber_id && s.expected;
    })
    else if call.evt_desc.evt_id == msgdata_id
    then post_if_last total_keepalive total_msgdata (record s {
      msgdata_cnt = ulong (s.msgdata_cnt + 1);
      next_value = u32 (s.next_value + 1);
      expected =
          (call.evt_suber_id == evt_suber_id && u32_of call.evt_desc.evt_data == s.next_value)
          && s.expected;
    })
    else post_if_last total_keepalive total_msgdata (record s { expected = false })

-- What they have before the first call, and after these.
abbrev pub b_after : ℕ → Operators → List CbCall → Priv
b_after total_keepalive o calls = proc_calls (proc_b total_keepalive o.suber_b) 1 calls zero_priv

abbrev pub c_after : ℕ → Operators → List CbCall → MsgPriv
c_after total_msgdata o calls =
    proc_calls (proc_c total_msgdata o.suber_c) 2 calls
      (record { counter = zero_priv; next_value = 0 })

abbrev pub d_after : ℕ → ℕ → Operators → List CbCall → BothPriv
d_after total_keepalive total_msgdata o calls =
    proc_calls (proc_d total_keepalive total_msgdata o.suber_d) 3 calls (record {
      keepalive_cnt = 0;
      msgdata_cnt = 0;
      next_value = 0;
      sem_posts = 0;
      expected = true;
    })

-- Whether the waits for the three semaphores return.
abbrev pub case02_over : ℕ → ℕ → Operators → List CbCall → Bool
case02_over total_keepalive total_msgdata o calls =
    is_posted (b_after total_keepalive o calls)
    && (is_posted (c_after total_msgdata o calls).counter
        && ltb 0 (d_after total_keepalive total_msgdata o calls).sem_posts)

-- `TEST(UT_T1_PubSubEvt_Typical, Case02)`, with `total_keepalive` for `_UT_KEEPALIVE_EVT_CNT` and
-- `total_msgdata` for `_UT_MSGDATA_EVT_CNT`: the results of its calls, the callbacks, and the
-- manager; `none` if it waits after these moves.
unfoldable pub case02 :
    ℕ → ℕ → ℕ → List Move → Manager → Run (Option (List TosResult × List CbCall × Manager))
case02 tail_cells total_keepalive total_msgdata moves m = do
  begun ← case02_setup tail_cells m
  heard ← run_turns (turns_of begun.0.puber_a 0 moves) begun.1
  if case02_over total_keepalive total_msgdata begun.0 heard.0
      then (do
        ended ← case01_teardown begun.0 heard.2
        ok (some (begun.0.results ++ results_of heard.1, heard.0, ended)))
      else ok none

-- No post fills the queue, so that none reaches the slot that the thread reads during its callbacks:
-- how many wait.
abbrev pub has_room : List Move → ℕ → Bool
has_room [] waiting = true
has_room (posts_keepalive ∷ moves) waiting = ltb waiting 255 && has_room moves (suc waiting)
has_room (posts_msgdata ∷ moves) waiting = ltb waiting 255 && has_room moves (suc waiting)
has_room (takes ∷ moves) waiting = has_room moves (waiting - 1)

-- How many wait after the moves.
abbrev pub left_by : List Move → ℕ → ℕ
left_by [] waiting = waiting
left_by (posts_keepalive ∷ moves) waiting = left_by moves (suc waiting)
left_by (posts_msgdata ∷ moves) waiting = left_by moves (suc waiting)
left_by (takes ∷ moves) waiting = left_by moves (waiting - 1)
