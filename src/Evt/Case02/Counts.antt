-- ===== src/Evt/Case02/Counts.antt =====
-- What the callbacks of the test count.
use freely_craft_codes.Prelude.{
  ℕ, suc, ◌+◌, ◌<◌, ◌^◌, ◌≡◌, ◌==◌, refl, ap, ap₂, ◌∙◌, true, false, some, List, ◌∷◌, ◌++◌, [],
  arith,
}
use freely_craft_codes.ThinkOs.{u32, ulong}
use freely_craft_codes.Evt.Types.{EvtDesc}
use freely_craft_codes.Evt.Id.{selects, make_evtid}
use freely_craft_codes.Evt.Id.Names.{evtid, class_bit, class_of, event_bit, test_bit}
use freely_craft_codes.Evt.Queue.{stamp}
use freely_craft_codes.Evt.Psdb.Dispatch.{CbCall}
use freely_craft_codes.Evt.Manager.Events.{calls_in}
use freely_craft_codes.Evt.Busy.Turns.{calls_of}
use freely_craft_codes.Evt.Counter.{Priv, count_call, counted}
use freely_craft_codes.Evt.Scenario.{keepalive_desc}
use freely_craft_codes.Evt.Case02.{
  msgdata_desc, u32_of, proc_calls, proc_b, proc_c, proc_d, BothPriv, is_last, post_if_last,
}
use freely_craft_codes.Evt.Case02.Start.{rows}
use freely_craft_codes.Evt.Case02.Events.{
  Kind, a_keepalive, a_msgdata, desc_of, next, events_of, keepalives, msgdatas,
}

abbrev call_to : ℕ → EvtDesc → CbCall
call_to id desc = record {
  evt_suber_id = id;
  sub_args = record { to_obj_priv = id; cb_proc_evt_srt = id };
  evt_desc = desc;
}

keepalive_calls :
    (seq_id : ℕ)
    → let desc = stamp 0 seq_id keepalive_desc in
      calls_in desc (some rows) ≡ call_to 1 desc ∷ call_to 3 desc ∷ []
unfolding selects evtid make_evtid class_bit class_of event_bit test_bit
keepalive_calls seq_id = refl

msgdata_calls :
    (n seq_id : ℕ)
    → let desc = stamp 0 seq_id (msgdata_desc n) in
      calls_in desc (some rows) ≡ call_to 2 desc ∷ call_to 3 desc ∷ []
unfolding selects evtid make_evtid class_bit class_of event_bit test_bit
msgdata_calls n seq_id = refl

same_u32 : (n : ℕ) → n < 2 ^ 32 → u32_of (msgdata_desc n).evt_data ≡ n
same_u32 n h = omega arith

same_num : (n : ℕ) → (n == n) ≡ true
same_num n = ground arith

-- The calls for these events, from these numbers on.
abbrev pub calls_for : ℕ → ℕ → List Kind → List CbCall
calls_for n seq_id ks = calls_of (some rows) (events_of 0 n seq_id ks)

pub b_counts :
    (total n seq_id : ℕ) (ks : List Kind) (s : Priv)
    → proc_calls (proc_b total 1) 1 (calls_for n seq_id ks) s ≡ counted total (keepalives ks) s
unfolding evtid make_evtid class_bit class_of event_bit test_bit
b_counts total n seq_id [] s = refl
b_counts total n seq_id (a_keepalive ∷ ks) s =
    rw (keepalive_calls seq_id) (b_counts total n (u32 (seq_id + 1)) ks (count_call total s))
b_counts total n seq_id (a_msgdata ∷ ks) s =
    rw (msgdata_calls n seq_id) (b_counts total (suc n) (u32 (seq_id + 1)) ks s)

pub c_counts :
    (total n seq_id : ℕ) (ks : List Kind) (s : Priv)
    → n + msgdatas ks < 2 ^ 32
    → proc_calls (proc_c total 2) 2 (calls_for n seq_id ks) (record { counter = s; next_value = n })
      ≡ record { counter = counted total (msgdatas ks) s; next_value = n + msgdatas ks }
unfolding evtid make_evtid class_bit class_of event_bit test_bit
c_counts total n seq_id [] s h = ap (λ k. record { counter = s; next_value = k }) (omega arith)
c_counts total n seq_id (a_keepalive ∷ ks) s h =
    rw (keepalive_calls seq_id) (c_counts total n (u32 (seq_id + 1)) ks s h)
c_counts total n seq_id (a_msgdata ∷ ks) s h =
    let one_more : u32 (n + 1) ≡ suc n = omega arith in
    rw (msgdata_calls n seq_id, same_u32 n (omega arith), same_num n, one_more)
      (c_counts total (suc n) (u32 (seq_id + 1)) ks (count_call total s) (omega arith)
        ∙ ap (λ k. record { counter = counted total (suc (msgdatas ks)) s; next_value = k })
            (omega arith))

-- The private data of D, after so many events of each kind.
abbrev pub both_at : ℕ → ℕ → ℕ → BothPriv
both_at k n sems = record {
  keepalive_cnt = k;
  msgdata_cnt = n;
  next_value = n;
  sem_posts = sems;
  expected = true;
}

abbrev next_k : ℕ → Kind → ℕ
next_k k a_keepalive = suc k
next_k k a_msgdata = k

same_k : (k : ℕ) (x : Kind) (ks : List Kind) → next_k k x + keepalives ks ≡ k + keepalives (x ∷ ks)
same_k k a_keepalive ks = omega arith
same_k k a_msgdata ks = omega arith

same_n : (n : ℕ) (x : Kind) (ks : List Kind) → next n x + msgdatas ks ≡ n + msgdatas (x ∷ ks)
same_n n a_keepalive ks = omega arith
same_n n a_msgdata ks = omega arith

one_of : (k n : ℕ) (x : Kind) → next_k k x + next n x ≡ suc (k + n)
one_of k n a_keepalive = omega arith
one_of k n a_msgdata = omega arith

-- Not the last event: the counts do not both stand at their totals.
not_last : (tk tm k n : ℕ) → k + n < tk + tm → is_last tk tm (both_at k n 0) ≡ false
not_last tk tm k n h = ground arith

is_last_at : (tk tm : ℕ) → is_last tk tm (both_at tk tm 0) ≡ true
is_last_at tk tm = ground arith

-- One event.
d_step :
    (tk tm k n seq_id : ℕ) (x : Kind) (calls : List CbCall)
    → next_k k x < 2 ^ 32
    → next n x < 2 ^ 32
    → proc_calls
        (proc_d tk tm 3)
        3
        (calls_in (stamp 0 seq_id (desc_of n x)) (some rows) ++ calls)
        (both_at k n 0)
      ≡ proc_calls (proc_d tk tm 3) 3 calls (post_if_last tk tm (both_at (next_k k x) (next n x) 0))
unfolding evtid make_evtid class_bit class_of event_bit test_bit
d_step tk tm k n seq_id a_keepalive calls hk hn =
    let one_more : ulong (k + 1) ≡ suc k = omega arith in rw (keepalive_calls seq_id, one_more) refl
d_step tk tm k n seq_id a_msgdata calls hk hn =
    let next_value : u32 (n + 1) ≡ suc n = omega arith in
    let one_more : ulong (n + 1) ≡ suc n = omega arith in
    rw (msgdata_calls n seq_id, same_u32 n (omega arith), same_num n, next_value, one_more) refl

-- Before the last event, the semaphore is not posted; at the last it is, once.
pub d_before :
    (tk tm k n seq_id : ℕ) (ks : List Kind)
    → k + keepalives ks + (n + msgdatas ks) < tk + tm
    → k + keepalives ks < 2 ^ 32
    → n + msgdatas ks < 2 ^ 32
    → proc_calls (proc_d tk tm 3) 3 (calls_for n seq_id ks) (both_at k n 0)
      ≡ both_at (k + keepalives ks) (n + msgdatas ks) 0
d_before tk tm k n seq_id [] h hk hn = ap₂ (λ i j. both_at i j 0) (omega arith) (omega arith)
d_before tk tm k n seq_id (x ∷ ks) h hk hn =
    let sum_k = same_k k x ks in
    let sum_n = same_n n x ks in
    d_step tk tm k n seq_id x (calls_for (next n x) (u32 (seq_id + 1)) ks) (omega (arith, sum_k))
      (omega (arith, sum_n))
    ∙ rw (not_last tk tm (next_k k x) (next n x) (omega (arith, sum_k, sum_n))) (
        d_before tk tm (next_k k x) (next n x) (u32 (seq_id + 1)) ks (omega (arith, sum_k, sum_n))
          (omega (arith, sum_k)) (omega (arith, sum_n)))
    ∙ ap₂ (λ i j. both_at i j 0) sum_k sum_n

pub d_all :
    (tk tm k n seq_id : ℕ) (x : Kind) (ks : List Kind)
    → k + keepalives (x ∷ ks) ≡ tk
    → n + msgdatas (x ∷ ks) ≡ tm
    → tk < 2 ^ 32
    → tm < 2 ^ 32
    → proc_calls (proc_d tk tm 3) 3 (calls_for n seq_id (x ∷ ks)) (both_at k n 0) ≡ both_at tk tm 1
d_all tk tm k n seq_id x [] ek en hk hn =
    let at_k : next_k k x ≡ tk = omega (arith, same_k k x []) in
    let at_n : next n x ≡ tm = omega (arith, same_n n x []) in
    d_step tk tm k n seq_id x [] (omega (arith, at_k)) (omega (arith, at_n))
    ∙ ap₂ (λ i j. post_if_last tk tm (both_at i j 0)) at_k at_n
    ∙ rw (is_last_at tk tm) refl
d_all tk tm k n seq_id x (y ∷ ks) ek en hk hn =
    let sum_k = same_k k x (y ∷ ks) in
    let sum_n = same_n n x (y ∷ ks) in
    d_step tk tm k n seq_id x (calls_for (next n x) (u32 (seq_id + 1)) (y ∷ ks))
      (omega (arith, sum_k)) (omega (arith, sum_n))
    ∙ rw
        (not_last tk tm (next_k k x) (next n x)
          (omega (arith, sum_k, sum_n, one_of 0 0 y, same_k 0 y ks, same_n 0 y ks)))
        (d_all tk tm (next_k k x) (next n x) (u32 (seq_id + 1)) y ks (sum_k ∙ ek) (sum_n ∙ en) hk
          hn)
