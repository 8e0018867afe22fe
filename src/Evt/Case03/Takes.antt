-- ===== src/Evt/Case03/Takes.antt =====
-- What the thread of the manager does to the queue.
use freely_craft_codes.Prelude.{
  ℕ, zero, suc, replicate, ◌+◌, ◌<◌, ◌≡◌, refl, sym, ap, ap₂, subst, ◌∙◌, some, List, ◌∷◌, ◌++◌, [],
  length, length-append, true, arith,
}
use freely_craft_codes.ThinkOs.{TosResult, success}
use freely_craft_codes.Evt.Types.{EvtDesc}
use freely_craft_codes.Evt.Queue.{EvtQueue}
use freely_craft_codes.Evt.Manager.Events.{calls_in, with_queue}
use freely_craft_codes.Evt.Busy.{post_evts}
use freely_craft_codes.Evt.Busy.Holding.{posts_in}
use freely_craft_codes.Evt.Busy.Round.{Fits, FitsIn}
use freely_craft_codes.Evt.Busy.Turns.{run_turns}
use freely_craft_codes.Evt.Busy.Room.{busy_none, busy_same, one_some, quiet_some}
use freely_craft_codes.Evt.Case02.{results_of}
use freely_craft_codes.Evt.Case03.{
  request_desc, response_desc, answers, Move, takes, is_b, Kind, request, response, left_by,
  has_room,
}
use freely_craft_codes.Evt.Case03.Start.{rows}
use freely_craft_codes.Evt.Case03.Due.{kinds, descs, length-kinds, due, due-answers, due-response}
use freely_craft_codes.Evt.Case03.Counts.{
  desc_of, heard_by, posts-request, posts-response, Counts-request, Counts-response,
}
use freely_craft_codes.Evt.Case03.Asks.{base, Passes, Holds, answers-Holds}

length-with_last : {A : Type 0} (n : ℕ) (x y : A) → length (replicate n x ++ y ∷ []) ≡ suc n
length-with_last zero x y = refl
length-with_last (suc n) x y = omega (arith, length-with_last n x y)

results_of-success :
    (xs ys : List (TosResult × EvtDesc))
    → results_of xs ≡ replicate (length xs) success
    → results_of ys ≡ replicate (length ys) success
    → results_of (xs ++ ys) ≡ replicate (length (xs ++ ys)) success
results_of-success [] ys a b = b
results_of-success (x ∷ xs) ys a b =
    let here : x.0 ≡ success = ground arith in
    let others : results_of xs ≡ replicate (length xs) success = ground arith in
    ap₂ (λ r l. r ∷ l) here (results_of-success xs ys others b)

-- A round with nothing to take.
pub idle-Passes :
    (total n : ℕ) (moves : List Move) (q : EvtQueue)
    → Holds [] q
    → n ≡ 0
    → Passes total moves [] q
    → Passes total (takes n ∷ moves) [] q
unfolding run_turns
idle-Passes total n moves q h none_posted (calls, rs, q2, run, all, num, counts) =
    let ran = busy_none 0 base refl (answers n 0) q h.valid h.held in
    (
      calls,
      rs,
      q2,
      rw (ran, run) refl,
      all,
      omega (arith, num, none_posted),
      λ who. let (k, sum, c) = counts who in (k, omega (arith, sum, none_posted), c),
    )

-- A round that takes a request, and during which the posting loop posts, and then the callback.
pub answer-Passes :
    (total n : ℕ) (moves : List Move) (seq_id : ℕ) (es : List (Kind × ℕ)) (q : EvtQueue)
    → Holds ((request, seq_id) ∷ es) q
    → has_room (takes n ∷ moves) (request ∷ kinds es) ≡ true
    → ((fs : List (Kind × ℕ)) (r : EvtQueue)
        → Holds fs r
        → has_room moves (kinds fs) ≡ true
        → Passes total moves fs r)
    → Passes total (takes n ∷ moves) ((request, seq_id) ∷ es) q
unfolding run_turns
answer-Passes total n moves seq_id es q h fits others =
    let room : length (kinds es) + n < 255 = ground (arith, fits) in
    let later : has_room moves (kinds es ++ (replicate n request ++ response ∷ [])) ≡ true =
      ground (arith, fits) in
    let d = desc_of (request, seq_id) in
    let now_posts = posts-request n seq_id in
    let (q1, took, v1, left) = one_some 0 base refl q d (descs es) h.valid h.held in
    let few : length (posts_in (answers n 0) (calls_in d (some rows))) ≡ suc n =
      ap length now_posts
      ∙ length-with_last {A = ℕ × EvtDesc} n (0, request_desc) (1, response_desc) in
    let fit : Fits (answers n 0) (with_queue q base) =
      subst (FitsIn (answers n 0) (some rows) q.evt_desc_num_in_queue) (sym h.held)
        (omega (arith, room, few, length-kinds es, h.deep)) in
    let (rs1, q2, js, posted, h2, waits, all1, num1) =
      answers-Holds n es q1
        (record {
          valid = v1;
          deep = ap (λ f. f.depth) left ∙ h.deep;
          held = ap (λ f. f.waiting) left;
        })
        room in
    let ran =
      busy_same 0 base refl (answers n 0) q h.valid fit (calls_in d (some rows)) rs1
        (with_queue q1 base) (with_queue q2 base) took
        (ap (λ ps. post_evts ps (with_queue q1 base)) now_posts ∙ posted) in
    let (calls, rs, q3, run, all, num, counts) =
      others js q2 h2 (ap (has_room moves) waits ∙ later) in
    (
      calls_in d (some rows) ++ calls,
      rs1 ++ rs,
      q3,
      rw (ran, run) refl,
      results_of-success rs1 rs all1 all,
      omega (
        arith,
        num,
        num1,
        length-append rs1 rs,
        ap (due is_b) waits,
        due-answers is_b n (kinds es),
        ap (λ ks. due is_b (left_by moves ks)) waits,
      ),
      λ who.
          let (k, sum, c) = counts who in
          (
            heard_by who request + k,
            omega (
              arith,
              sum,
              ap (due who) waits,
              due-answers who n (kinds es),
              ap (λ ks. due who (left_by moves ks)) waits,
            ),
            Counts-request total who seq_id k calls c,
          ),
    )

-- A round that takes a response.
pub response-Passes :
    (total n : ℕ) (moves : List Move) (seq_id : ℕ) (es : List (Kind × ℕ)) (q : EvtQueue)
    → Holds ((response, seq_id) ∷ es) q
    → n ≡ 0
    → ((r : EvtQueue) → Holds es r → Passes total moves es r)
    → Passes total (takes n ∷ moves) ((response, seq_id) ∷ es) q
unfolding run_turns
response-Passes total n moves seq_id es q h none_posted others =
    let (q1, ran, v1, now) =
      quiet_some 0 base refl (answers n 0) q (desc_of (response, seq_id)) (descs es) h.valid h.held
        (posts-response n seq_id) in
    let (calls, rs, q2, run, all, num, counts) = others q1 (record {
      valid = v1;
      deep = ap (λ f. f.depth) now ∙ h.deep;
      held = ap (λ f. f.waiting) now;
    }) in
    (
      calls_in (desc_of (response, seq_id)) (some rows) ++ calls,
      rs,
      q2,
      rw (ran, run) refl,
      all,
      omega (arith, num, none_posted),
      λ who.
          let (k, sum, c) = counts who in
          (
            heard_by who response + k,
            omega (arith, sum, due-response who (kinds es), none_posted),
            Counts-response total who seq_id k calls c,
          ),
    )
