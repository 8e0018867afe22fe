-- ===== src/Evt/Scenario.antt =====
-- The first test of PlatIF_EVT_UT_useGtest/UT_T1_PubSubEvt_Typical.cxx, Case01, as a run of the
-- manager: an operator publishes an event that three others subscribe to. Its sleeps give the
-- processor's thread the time to take each event before the next is posted. Every allocation
-- succeeds.
pub mod Passes
pub mod Start
mod Tests
use freely_craft_codes.Prelude.{
  Bool, ℕ, zero, suc, ◌+◌, ◌&&◌, true, Option, none, some, List, ◌∷◌, ◌++◌, [], Run, ok, ◌==◌,
  if◌then◌else◌, ◌>>=◌,
}
use freely_craft_codes.ThinkOs.{TosResult, ulong}
use freely_craft_codes.Evt.Types.{EvtDesc, EvtSubArgs, EvtOperArgs, ModArgs}
use freely_craft_codes.Evt.Id.Names.{TestEvent, keepalive, test_evtid}
use freely_craft_codes.Evt.Queue.{zero_desc}
use freely_craft_codes.Evt.Psdb.Dispatch.{CbCall}
use freely_craft_codes.Evt.Manager.{Manager}
use freely_craft_codes.Evt.Manager.Lifecycle.{enable_evt_manger, disable_evt_manger}
use freely_craft_codes.Evt.Manager.Interface.{
  reg_oper, unreg, pub_evts, unpub_evts, sub_evts, unsub_evts,
}
use freely_craft_codes.Evt.Counter.{Priv, zero_priv, count_call, is_posted}
use freely_craft_codes.Evt.Manager.Rounds.{post_rounds}

-- `_UT_OPERATOR_COUNT` and `_UT_EVTQUEUE_DEPTH_MAX`, and what
-- `UTG_T1_PubSubEvt_Typical_setupGroupContext` initializes the manager with.
abbrev pub group_args : ModArgs
group_args = record {
  may_reg_oper_num_max = 6;
  may_pub_evt_num_max = 0;
  may_sub_evt_num_max = 0;
  may_evt_queue_num_max = 0;
  may_evt_queue_depth_max = 256;
}

-- `TOS_EVTOPERID_INVALID`, which an operator's variable keeps if it is not registered.
abbrev pub or_invalid : Option ℕ → ℕ
or_invalid none = 0xFFFFFFFF
or_invalid (some id) = id

-- `TOS_EVTID_TEST_KEEPALIVE`
abbrev pub keepalive_id : ℕ
keepalive_id = test_evtid TestEvent.keepalive

-- `TOS_EVT_defineEvtDesc`
abbrev pub keepalive_desc : EvtDesc
keepalive_desc = record zero_desc { evt_id = keepalive_id }

-- `__UT_Case01_CbProcEvtSRT`: its address.
abbrev pub case01_cb : ℕ
case01_cb = 1

-- A subscriber with its private data at an address: registered and subscribed.
abbrev pub suber_of : ℕ → ℕ → ℕ → Manager → Run (List TosResult × ℕ × Manager)
suber_of tail_cells mod_obj_id priv m = do
  reg ← reg_oper true (record { mod_obj_id = mod_obj_id }) m
  sub ←
      sub_evts tail_cells true true (or_invalid reg.1) (keepalive_id ∷ []) 1
        (record { to_obj_priv = priv; cb_proc_evt_srt = case01_cb }) reg.2
  ok (reg.0 ∷ sub.0 ∷ [], or_invalid reg.1, sub.1)

-- The operators of the test, and the results so far.
pub record Operators : Type 0 where
  pub results : List TosResult
  pub puber_a : ℕ
  pub suber_b : ℕ
  pub suber_c : ℕ
  pub suber_d : ℕ

-- Up to `PLT_EVT_enableEvtManger`.
unfoldable pub case01_setup : ℕ → Manager → Run (Operators × Manager)
case01_setup tail_cells m = do
  a ← reg_oper true (record { mod_obj_id = 0xFFFE }) m
  published ← pub_evts tail_cells true (or_invalid a.1) (keepalive_id ∷ []) 1 a.2
  b ← suber_of tail_cells 0xFFFD 1 published.1
  c ← suber_of tail_cells 0xFFFC 2 b.2
  d ← suber_of tail_cells 0xFFFB 3 c.2
  enabled ← enable_evt_manger true d.2
  ok (
    record {
      results = a.0 ∷ published.0 ∷ (b.0 ++ (c.0 ++ (d.0 ++ enabled.0 ∷ [])));
      puber_a = or_invalid a.1;
      suber_b = b.1;
      suber_c = c.1;
      suber_d = d.1;
    },
    enabled.1,
  )

-- From `PLT_EVT_disableEvtManger`.
unfoldable pub case01_teardown : Operators → Manager → Run Manager
case01_teardown o m = do
  m1 ← disable_evt_manger m
  m2 ← unpub_evts o.puber_a m1
  m3 ← unsub_evts o.suber_b m2
  m4 ← unsub_evts o.suber_c m3
  m5 ← unsub_evts o.suber_d m4
  m6 ← unreg o.puber_a m5
  m7 ← unreg o.suber_b m6
  m8 ← unreg o.suber_c m7
  unreg o.suber_d m8

-- `__UT_Case01_CbProcEvtSRT` on the calls with one private pointer, with its checks of the operator,
-- of the number and of the id; it counts in `KeepAliveNextSeqID`.
unfoldable pub case01_proc : ℕ → ℕ → ℕ → List CbCall → Priv → Priv
case01_proc total priv evt_suber_id [] s = s
case01_proc total priv evt_suber_id (call ∷ calls) s =
    if call.sub_args.to_obj_priv == priv
    then case01_proc total priv evt_suber_id calls (
        count_call total (record s {
          expected =
              (call.evt_suber_id == evt_suber_id
                && (call.evt_desc.seq_id == s.proced_cnt && call.evt_desc.evt_id == keepalive_id))
              && s.expected;
        }))
    else case01_proc total priv evt_suber_id calls s

-- Whether the waits for the three semaphores return.
abbrev pub case01_over : ℕ → Operators → List CbCall → Bool
case01_over total o calls =
    is_posted (case01_proc total 1 o.suber_b calls zero_priv)
    && (is_posted (case01_proc total 2 o.suber_c calls zero_priv)
        && is_posted (case01_proc total 3 o.suber_d calls zero_priv))

-- `TEST(UT_T1_PubSubEvt_Typical, Case01)` with a number of posts: the results of its calls, the
-- callbacks, and the manager; `none` if it waits for ever.
unfoldable pub case01 : ℕ → ℕ → Manager → Run (Option (List TosResult × List CbCall × Manager))
case01 tail_cells total m = do
  begun ← case01_setup tail_cells m
  posted ← post_rounds total begun.0.puber_a keepalive_desc begun.1
  if case01_over total begun.0 posted.1
      then (do
        ended ← case01_teardown begun.0 posted.2
        ok (some (begun.0.results ++ posted.0, posted.1, ended)))
      else ok none
