-- ===== src/Evt/Case03.antt =====
-- The third test of PlatIF_EVT_UT_useGtest/UT_T1_PubSubEvt_Typical.cxx, Case03, as a run of the
-- manager: an operator posts requests, another one answers each from its callback, and the first and
-- two more count the answers. `moves` is the order in which the posting thread and the thread of the
-- manager get the lock of the queue. Every allocation succeeds. The callbacks post the semaphores
-- for which the test waits before it disables the manager.
pub mod Start
pub mod Counts
pub mod Due
pub mod Asks
pub mod Takes
pub mod Moves
pub mod Passes
mod Tests
use freely_craft_codes.Prelude.{
  ℕ, zero, suc, replicate, ◌+◌, true, Bool, ◌&&◌, Option, none, some, List, ◌∷◌, ◌++◌, [], Run, ok,
  ◌==◌, ltb, length, if◌then◌else◌, ◌>>=◌,
}
use freely_craft_codes.ThinkOs.{TosResult, ulong}
use freely_craft_codes.Evt.Types.{EvtDesc, EvtSubArgs, EvtOperArgs}
use freely_craft_codes.Evt.Id.Names.{TestEvent, echo_request, echo_response, test_evtid}
use freely_craft_codes.Evt.Queue.{zero_desc}
use freely_craft_codes.Evt.Psdb.Dispatch.{CbCall}
use freely_craft_codes.Evt.Manager.{Manager}
use freely_craft_codes.Evt.Manager.Lifecycle.{enable_evt_manger, disable_evt_manger}
use freely_craft_codes.Evt.Manager.Interface.{
  reg_oper, unreg, pub_evts, unpub_evts, sub_evts, unsub_evts,
}
use freely_craft_codes.Evt.Busy.{Posts}
use freely_craft_codes.Evt.Busy.Turns.{Turn, posts, rounds, run_turns}
use freely_craft_codes.Evt.Counter.{Priv, zero_priv, count_call, is_posted}
use freely_craft_codes.Evt.Scenario.{or_invalid}
use freely_craft_codes.Evt.Case02.{suber_with, results_of}

-- `TOS_EVTID_TEST_ECHO_REQUEST` and `TOS_EVTID_TEST_ECHO_RESPONSE`
abbrev pub request_id : ℕ
request_id = test_evtid TestEvent.echo_request

abbrev pub response_id : ℕ
response_id = test_evtid TestEvent.echo_response

abbrev pub request_desc : EvtDesc
request_desc = record zero_desc { evt_id = request_id }

abbrev pub response_desc : EvtDesc
response_desc = record zero_desc { evt_id = response_id }

-- `__UT_Case03_CbProcEvtSRT_ofA`, `_ofB` and `_ofCD`: their addresses.
abbrev pub cb_of_a : ℕ
cb_of_a = 1

abbrev pub cb_of_b : ℕ
cb_of_b = 2

abbrev pub cb_of_cd : ℕ
cb_of_cd = 3

-- An operator that publishes an event and subscribes to another; `priv` is the address of its data.
abbrev pub oper_with : ℕ → ℕ → ℕ → ℕ → ℕ → ℕ → Manager → Run (List TosResult × ℕ × Manager)
oper_with tail_cells mod_obj_id pub_id sub_id cb priv m = do
  reg ← reg_oper true (record { mod_obj_id = mod_obj_id }) m
  published ← pub_evts tail_cells true (or_invalid reg.1) (pub_id ∷ []) 1 reg.2
  sub ←
      sub_evts tail_cells true true (or_invalid reg.1) (sub_id ∷ []) 1
        (record { to_obj_priv = priv; cb_proc_evt_srt = cb }) published.1
  ok (reg.0 ∷ published.0 ∷ sub.0 ∷ [], or_invalid reg.1, sub.1)

-- The operators, and the results so far.
pub record EchoOpers : Type 0 where
  pub results : List TosResult
  pub oper_a : ℕ
  pub oper_b : ℕ
  pub suber_c : ℕ
  pub suber_d : ℕ

-- Up to `PLT_EVT_enableEvtManger`.
unfoldable pub case03_setup : ℕ → Manager → Run (EchoOpers × Manager)
case03_setup tail_cells m = do
  a ← oper_with tail_cells 0xFFFE request_id response_id cb_of_a 1 m
  b ← oper_with tail_cells 0xFFFD response_id request_id cb_of_b 2 a.2
  c ← reg_oper true (record { mod_obj_id = 0xFFFC }) b.2
  d ← reg_oper true (record { mod_obj_id = 0xFFFB }) c.2
  sub_c ←
      sub_evts tail_cells true true (or_invalid c.1) (response_id ∷ []) 1
        (record { to_obj_priv = 3; cb_proc_evt_srt = cb_of_cd }) d.2
  sub_d ←
      sub_evts tail_cells true true (or_invalid d.1) (response_id ∷ []) 1
        (record { to_obj_priv = 4; cb_proc_evt_srt = cb_of_cd }) sub_c.1
  enabled ← enable_evt_manger true sub_d.1
  ok (
    record {
      results = a.0 ++ (b.0 ++ (c.0 ∷ d.0 ∷ sub_c.0 ∷ sub_d.0 ∷ enabled.0 ∷ []));
      oper_a = a.1;
      oper_b = b.1;
      suber_c = or_invalid c.1;
      suber_d = or_invalid d.1;
    },
    enabled.1,
  )

-- From `PLT_EVT_disableEvtManger`.
unfoldable pub case03_teardown : EchoOpers → Manager → Run Manager
case03_teardown o m = do
  m1 ← disable_evt_manger m
  m2 ← unpub_evts o.oper_a m1
  m3 ← unsub_evts o.oper_a m2
  m4 ← unpub_evts o.oper_b m3
  m5 ← unsub_evts o.oper_b m4
  m6 ← unsub_evts o.suber_c m5
  m7 ← unsub_evts o.suber_d m6
  m8 ← unreg o.oper_a m7
  m9 ← unreg o.oper_b m8
  m10 ← unreg o.suber_c m9
  unreg o.suber_d m10

-- What is posted during the callbacks: that of B posts its answer, as the operator that it is called
-- with, and the posting loop may get there first with so many requests.
abbrev pub answers : ℕ → ℕ → Posts
answers num_asks puber call =
    if call.sub_args.cb_proc_evt_srt == cb_of_b
    then replicate num_asks (puber, request_desc) ++ (call.evt_suber_id, response_desc) ∷ []
    else []

-- Who goes on: the posting loop, or the thread of the manager with a round, during which the loop
-- posts so many requests before the answer. What it posts later in a round stands after the round.
pub data Move : Type 0 where
  asks : Move
  takes : ℕ → Move

-- The posting loop, with as many posts as its `int` EvtCnt counts, and the thread of the manager.
abbrev pub turns_of : ℕ → List Move → List Turn
turns_of puber [] = []
turns_of puber (asks ∷ moves) = posts puber request_desc ∷ turns_of puber moves
turns_of puber (takes n ∷ moves) = rounds (answers n puber) ∷ turns_of puber moves

-- The four subscribers, the event that each subscribes to, and the address of its private data.
pub data Who : Type 0 where
  is_a is_b is_c is_d : Who

abbrev pub suber_id : EchoOpers → Who → ℕ
suber_id o is_a = o.oper_a
suber_id o is_b = o.oper_b
suber_id o is_c = o.suber_c
suber_id o is_d = o.suber_d

abbrev pub evt_of : Who → ℕ
evt_of is_b = request_id
evt_of _ = response_id

abbrev pub priv_of : Who → ℕ
priv_of is_a = 1
priv_of is_b = 2
priv_of is_c = 3
priv_of is_d = 4

-- The callbacks `__UT_Case03_CbProcEvtSRT_ofA`, `_ofB` and `_ofCD` on the calls with one private
-- pointer.
abbrev pub proc_calls : ℕ → ℕ → ℕ → ℕ → List CbCall → Priv → Priv
proc_calls total evt_suber_id evt_id priv [] s = s
proc_calls total evt_suber_id evt_id priv (call ∷ calls) s =
    if call.sub_args.to_obj_priv == priv
    then proc_calls total evt_suber_id evt_id priv calls (
        count_call total (record s {
          expected =
              (call.evt_suber_id == evt_suber_id && call.evt_desc.evt_id == evt_id) && s.expected;
        }))
    else proc_calls total evt_suber_id evt_id priv calls s

abbrev pub priv_after : ℕ → EchoOpers → Who → List CbCall → Priv
priv_after total o who calls =
    proc_calls total (suber_id o who) (evt_of who) (priv_of who) calls zero_priv

-- Whether the waits for the four semaphores return.
abbrev pub waits_over : ℕ → EchoOpers → List CbCall → Bool
waits_over total o calls =
    is_posted (priv_after total o is_a calls)
    && (is_posted (priv_after total o is_b calls)
        && (is_posted (priv_after total o is_c calls) && is_posted (priv_after total o is_d calls)))

-- `TEST(UT_T1_PubSubEvt_Typical, Case03)`, with `total` for `_UT_ECHO_REQUEST_EVT_CNT`: the results
-- of its calls, those in the callbacks among them, the callbacks, and the manager; `none` if it
-- waits after these moves.
unfoldable pub case03 :
    ℕ → ℕ → List Move → Manager → Run (Option (List TosResult × List CbCall × Manager))
case03 tail_cells total moves m = do
  begun ← case03_setup tail_cells m
  heard ← run_turns (turns_of begun.0.oper_a moves) begun.1
  if waits_over total begun.0 heard.0
      then (do
        ended ← case03_teardown begun.0 heard.2
        ok (some (begun.0.results ++ results_of heard.1, heard.0, ended)))
      else ok none

-- What waits in the queue.
pub data Kind : Type 0 where
  request response : Kind

-- The loop posts during the callbacks of a round only where there is one for a request, and no post
-- fills the queue, so that none reaches the slot that the thread reads during its callbacks.
abbrev pub has_room : List Move → List Kind → Bool
has_room [] waiting = true
has_room (asks ∷ moves) waiting =
    ltb (length waiting) 255 && has_room moves (waiting ++ request ∷ [])
has_room (takes n ∷ moves) [] = n == 0 && has_room moves []
has_room (takes n ∷ moves) (request ∷ waiting) =
    ltb (length waiting + n) 255
    && has_room moves (waiting ++ (replicate n request ++ response ∷ []))
has_room (takes n ∷ moves) (response ∷ waiting) = n == 0 && has_room moves waiting

-- What waits after the moves.
abbrev pub left_by : List Move → List Kind → List Kind
left_by [] waiting = waiting
left_by (asks ∷ moves) waiting = left_by moves (waiting ++ request ∷ [])
left_by (takes n ∷ moves) [] = left_by moves []
left_by (takes n ∷ moves) (request ∷ waiting) =
    left_by moves (waiting ++ (replicate n request ++ response ∷ []))
left_by (takes n ∷ moves) (response ∷ waiting) = left_by moves waiting
