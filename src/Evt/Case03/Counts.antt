-- ===== src/Evt/Case03/Counts.antt =====
-- What the callbacks count.
use freely_craft_codes.Prelude.{
  replicate, append-nil, ℕ, suc, ◌+◌, ◌≡◌, refl, ap, subst, ◌∙◌, some, List, ◌∷◌, ◌++◌, [], arith,
}
use freely_craft_codes.Evt.Types.{EvtDesc}
use freely_craft_codes.Evt.Id.{selects, make_evtid}
use freely_craft_codes.Evt.Id.Names.{evtid, class_bit, class_of, event_bit, test_bit}
use freely_craft_codes.Evt.Queue.{stamp}
use freely_craft_codes.Evt.Psdb.Dispatch.{CbCall}
use freely_craft_codes.Evt.Manager.Events.{calls_in}
use freely_craft_codes.Evt.Busy.Holding.{posts_in}
use freely_craft_codes.Evt.Counter.{Priv, count_call, counted}
use freely_craft_codes.Evt.Case03.{
  request_desc, response_desc, answers, Who, is_a, is_b, is_c, is_d, suber_id, evt_of, priv_of,
  proc_calls, Kind, request, response,
}
use freely_craft_codes.Evt.Case03.Start.{operators, rows}

-- An event in the queue, by its kind and its number.
abbrev pub desc_of : Kind × ℕ → EvtDesc
desc_of (request, seq_id) = stamp 0 seq_id request_desc
desc_of (response, seq_id) = stamp 1 seq_id response_desc

abbrev pub heard_by : Who → Kind → ℕ
heard_by is_b request = 1
heard_by is_b response = 0
heard_by who request = 0
heard_by who response = 1

-- The calls for each kind, and what is posted during them.
calls-request :
    (seq_id : ℕ)
    → calls_in (desc_of (request, seq_id)) (some rows)
      ≡ record {
        evt_suber_id = 1;
        sub_args = record { to_obj_priv = 2; cb_proc_evt_srt = 2 };
        evt_desc = desc_of (request, seq_id);
      }
        ∷ []
unfolding selects evtid make_evtid class_bit class_of event_bit test_bit
calls-request seq_id = refl

abbrev hears_response : ℕ → ℕ → ℕ → ℕ → CbCall
hears_response id priv cb seq_id = record {
  evt_suber_id = id;
  sub_args = record { to_obj_priv = priv; cb_proc_evt_srt = cb };
  evt_desc = desc_of (response, seq_id);
}

calls-response :
    (seq_id : ℕ)
    → calls_in (desc_of (response, seq_id)) (some rows)
      ≡ hears_response 0 1 1 seq_id ∷ hears_response 2 3 3 seq_id ∷ hears_response 3 4 3 seq_id ∷ []
unfolding selects evtid make_evtid class_bit class_of event_bit test_bit
calls-response seq_id = refl

pub posts-request :
    (n seq_id : ℕ)
    → posts_in (answers n 0) (calls_in (desc_of (request, seq_id)) (some rows))
      ≡ replicate n (0, request_desc) ++ (1, response_desc) ∷ []
posts-request n seq_id =
    rw (calls-request seq_id)
      (append-nil (replicate n (0, request_desc) ++ (1, response_desc) ∷ []))

pub posts-response :
    (n seq_id : ℕ) → posts_in (answers n 0) (calls_in (desc_of (response, seq_id)) (some rows)) ≡ []
posts-response n seq_id = rw (calls-response seq_id) refl

-- A callback passes its checks on these calls, and counts so many.
abbrev pub Counts : ℕ → Who → ℕ → List CbCall → Type 0
Counts total who n calls =
    (s : Priv)
    → proc_calls total (suber_id operators who) (evt_of who) (priv_of who) calls s
      ≡ counted total n s

pub Counts-num :
    (total : ℕ) (who : Who) {n k : ℕ} (calls : List CbCall)
    → n ≡ k
    → Counts total who n calls
    → Counts total who k calls
Counts-num total who calls e c = subst (λ k. Counts total who k calls) e c

pub Counts-request :
    (total : ℕ) (who : Who) (seq_id n : ℕ) (calls : List CbCall)
    → Counts total who n calls
    → Counts total who
        (heard_by who request + n)
        (calls_in (desc_of (request, seq_id)) (some rows) ++ calls)
unfolding evtid make_evtid class_bit class_of event_bit test_bit
Counts-request total is_a seq_id n calls c s =
    let same : n ≡ 0 + n = omega arith in
    rw (calls-request seq_id) (c s ∙ ap (λ k. counted total k s) same)
Counts-request total is_c seq_id n calls c s =
    let same : n ≡ 0 + n = omega arith in
    rw (calls-request seq_id) (c s ∙ ap (λ k. counted total k s) same)
Counts-request total is_d seq_id n calls c s =
    let same : n ≡ 0 + n = omega arith in
    rw (calls-request seq_id) (c s ∙ ap (λ k. counted total k s) same)
Counts-request total is_b seq_id n calls c s =
    let more : suc n ≡ 1 + n = omega arith in
    rw (calls-request seq_id) (c (count_call total s) ∙ ap (λ k. counted total k s) more)

pub Counts-response :
    (total : ℕ) (who : Who) (seq_id n : ℕ) (calls : List CbCall)
    → Counts total who n calls
    → Counts total who
        (heard_by who response + n)
        (calls_in (desc_of (response, seq_id)) (some rows) ++ calls)
unfolding evtid make_evtid class_bit class_of event_bit test_bit
Counts-response total is_b seq_id n calls c s =
    let same : n ≡ 0 + n = omega arith in
    rw (calls-response seq_id) (c s ∙ ap (λ k. counted total k s) same)
Counts-response total is_a seq_id n calls c s =
    let more : suc n ≡ 1 + n = omega arith in
    rw (calls-response seq_id) (c (count_call total s) ∙ ap (λ k. counted total k s) more)
Counts-response total is_c seq_id n calls c s =
    let more : suc n ≡ 1 + n = omega arith in
    rw (calls-response seq_id) (c (count_call total s) ∙ ap (λ k. counted total k s) more)
Counts-response total is_d seq_id n calls c s =
    let more : suc n ≡ 1 + n = omega arith in
    rw (calls-response seq_id) (c (count_call total s) ∙ ap (λ k. counted total k s) more)
