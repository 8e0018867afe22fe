-- ===== src/Evt/Scenario/Passes.antt =====
-- The test passes.
use freely_craft_codes.Prelude.{
  ℕ, zero, suc, ◌+◌, ◌<◌, ◌^◌, ◌≡◌, ◌≢◌, ◌==◌, ◌∙◌, refl, true, none, some, List, ◌∷◌, ◌++◌, [], ok,
  replicate, dec_lt, arith,
}
use freely_craft_codes.ThinkOs.{success, u32, ulong}
use freely_craft_codes.Evt.Id.{selects, make_evtid}
use freely_craft_codes.Evt.Id.Names.{evtid, class_bit, class_of, event_bit, test_bit}
use freely_craft_codes.Evt.Queue.{new_queue}
use freely_craft_codes.Evt.Counter.{Priv, zero_priv, count_call, counted, all_counted, counted-all}
use freely_craft_codes.Evt.Manager.Rounds.{round_calls, post_rounds_lem}
use freely_craft_codes.Evt.Manager.Events.{calls_in}
use freely_craft_codes.Evt.Psdb.Dispatch.{CbCall}
use freely_craft_codes.Evt.Queue.{stamp}
use freely_craft_codes.Evt.Oper.Invariant.{reged}
use freely_craft_codes.Evt.Scenario.{keepalive_desc, case01_proc, case01, case01_cb}
use freely_craft_codes.Evt.Scenario.Start.{
  start, rows, enabled, case01_setup_lem, case01_teardown_lem, enabled-IsWaiting,
}

-- Each event calls the three, in this order.
abbrev call_to : ℕ → ℕ → CbCall
call_to id seq_id = record {
  evt_suber_id = id;
  sub_args = record { to_obj_priv = id; cb_proc_evt_srt = case01_cb };
  evt_desc = stamp 0 seq_id keepalive_desc;
}

calls_of_round :
    (seq_id : ℕ)
    → calls_in (stamp 0 seq_id keepalive_desc) (some rows)
      ≡ call_to 1 seq_id ∷ call_to 2 seq_id ∷ call_to 3 seq_id ∷ []
unfolding selects evtid make_evtid class_bit class_of event_bit test_bit
calls_of_round seq_id = refl

-- The three subscribers, by their operators, which are also the addresses of their private data.
pub data Who : Type 0 where
  is_b is_c is_d : Who

abbrev pub id_of : Who → ℕ
id_of is_b = 1
id_of is_c = 2
id_of is_d = 3

same_num : (n : ℕ) → (n == n) ≡ true
same_num n = ground arith

-- The three calls of a round, of which each subscriber has one.
proc_round :
    (total : ℕ) (who : Who) (calls : List CbCall) (s : Priv)
    → case01_proc total
        (id_of who)
        (id_of who)
        (call_to 1 s.proced_cnt ∷ call_to 2 s.proced_cnt ∷ call_to 3 s.proced_cnt ∷ calls)
        s
      ≡ case01_proc total (id_of who) (id_of who) calls (count_call total s)
unfolding case01_proc evtid make_evtid class_bit class_of event_bit test_bit
proc_round total is_b calls s = rw (same_num s.proced_cnt) refl
proc_round total is_c calls s = rw (same_num s.proced_cnt) refl
proc_round total is_d calls s = rw (same_num s.proced_cnt) refl

proc_rounds :
    (total : ℕ) (who : Who) (n : ℕ) (s : Priv)
    → s.proced_cnt + n < 2 ^ 32
    → case01_proc total
        (id_of who)
        (id_of who)
        (round_calls n 0 s.proced_cnt keepalive_desc (some rows))
        s
      ≡ counted total n s
unfolding case01_proc
proc_rounds total who zero s h = refl
proc_rounds total who (suc n) s h =
    let next : u32 (s.proced_cnt + 1) ≡ ulong (s.proced_cnt + 1) = omega arith in
    rw (calls_of_round s.proced_cnt, next)
      (proc_round total who (round_calls n 0 (ulong (s.proced_cnt + 1)) keepalive_desc (some rows))
          s
        ∙ proc_rounds total who n (count_call total s) (omega arith))

-- The test ends: it passes, or waits for ever where it posts nothing.
pub data Outcome (total : ℕ) : Type 0 where
  passes :
      (calls : List CbCall)
      → 0 < total
      → case01 1 total start
        ≡ ok (some (replicate 9 success ++ replicate total success, calls, start))
      → ((who : Who)
          → case01_proc total (id_of who) (id_of who) calls zero_priv ≡ all_counted total)
      → Outcome total
  waits : total ≡ 0 → case01 1 total start ≡ ok none → Outcome total

-- The test, for any number of posts below 2^31, which its `int` counts, each taken before the next:
-- where it posts, the waits for the three semaphores return and all calls answer
-- TOS_RESULT_SUCCESS, each of the three subscribers finds its own operator, the posted id and the
-- next sequence number in each callback, counts as many callbacks as there were posts and posts its
-- semaphore once, and the manager ends as it began. Where it posts nothing, no semaphore is posted,
-- and the test waits for ever.
pub case01_lem : (total : ℕ) → total < 2 ^ 31 → Outcome total
unfolding case01 new_queue
case01_lem total h =
    let known : reged (enabled (new_queue 256)).opers 0 ≢ none = λ e. cc in
    let (q, runs, w) =
      post_rounds_lem 0 total 0 keepalive_desc (new_queue 256) (enabled (new_queue 256))
        enabled-IsWaiting known in
    let calls = round_calls total 0 0 keepalive_desc (some rows) in
    let heard : (who : Who)
        → case01_proc total (id_of who) (id_of who) calls zero_priv
          ≡ counted total total zero_priv =
      λ who. proc_rounds total who total zero_priv (omega arith) in
    elim (dec_lt 0 total) [
      | yes pos ↦
          let all : (who : Who)
              → case01_proc total (id_of who) (id_of who) calls zero_priv ≡ all_counted total =
            λ who. heard who ∙ counted-all total pos (omega arith) in
          passes calls pos
            (rw (case01_setup_lem, runs, all is_b, all is_c, all is_d, case01_teardown_lem q) refl)
            all
      | no none_posted ↦
          let nothing : total ≡ 0 = omega (arith, none_posted) in
          waits nothing (rw (case01_setup_lem, runs, heard is_b, nothing) refl)
    ]
