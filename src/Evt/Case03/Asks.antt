-- ===== src/Evt/Case03/Asks.antt =====
-- What the posting loop does to the queue.
use freely_craft_codes.Evt.Manager.Interface.{post_evt}
use freely_craft_codes.Evt.Busy.{post_evts}
use freely_craft_codes.Prelude.{
  ap₂, length-append, append_assoc, ℕ, zero, suc, ◌+◌, ◌<◌, ◌≡◌, ◌≢◌, refl, sym, ap, ◌∙◌, none,
  List, ◌∷◌, ◌++◌, [], ok, length, replicate, true, arith,
}
use freely_craft_codes.ThinkOs.{TosResult, success}
use freely_craft_codes.Evt.Types.{EvtDesc}
use freely_craft_codes.Evt.Oper.Invariant.{reged}
use freely_craft_codes.Evt.Queue.{EvtQueue, new_queue, stamp}
use freely_craft_codes.Evt.Queue.Contents.{contents}
use freely_craft_codes.Evt.Psdb.Dispatch.{CbCall}
use freely_craft_codes.Evt.Manager.{Manager}
use freely_craft_codes.Evt.Manager.Invariant.{IsValid}
use freely_craft_codes.Evt.Manager.Events.{with_queue}
use freely_craft_codes.Evt.Busy.Turns.{run_turns}
use freely_craft_codes.Evt.Busy.Room.{post_room}
use freely_craft_codes.Evt.Case02.{results_of}
use freely_craft_codes.Evt.Case03.{
  Kind, Move, Who, asks, has_room, is_b, left_by, request, request_desc, response, response_desc,
  turns_of,
}
use freely_craft_codes.Evt.Case03.Start.{enabled}
use freely_craft_codes.Evt.Case03.Due.{
  kinds, descs, kinds-append, descs-append, length-kinds, num_asks, due, due-request,
}
use freely_craft_codes.Evt.Case03.Counts.{desc_of, Counts}

abbrev pub base : Manager
base = enabled (new_queue 256)

-- What becomes of a queue of such events: the moves succeed, and each callback counts what it was
-- due and is no longer.
abbrev pub Passes : ℕ → List Move → List (Kind × ℕ) → EvtQueue → Type 0
Passes total moves es q =
    (calls : List CbCall) × (rs : List (TosResult × EvtDesc)) × (q' : EvtQueue) × (run_turns
        (turns_of 0 moves) (with_queue q base)
      ≡ ok (calls, rs, with_queue q' base))
    × (results_of rs ≡ replicate (length rs) success)
    × (length rs + due is_b (left_by moves (kinds es))
        ≡ due is_b (kinds es) + (num_asks moves + num_asks moves))
    × ((who : Who)
        → (n : ℕ) × (n + due who (left_by moves (kinds es)) ≡ due who (kinds es) + num_asks moves)
          × Counts total who n calls)

pub record Holds (es : List (Kind × ℕ)) (q : EvtQueue) : Type 0 where
  pub valid : IsValid 1 (with_queue q base)
  pub deep : q.evt_desc_num_in_queue ≡ 256
  pub held : contents q ≡ descs es

pub knows : (p : ℕ) → p < 2 → reged base.opers p ≢ none
knows zero h e = cc
knows (suc zero) h e = cc
knows (suc (suc p)) h e = omega (arith, h)

abbrev puber_of : Kind → ℕ
puber_of request = 0
puber_of response = 1

abbrev posted_desc : Kind → EvtDesc
posted_desc request = request_desc
posted_desc response = response_desc

same_desc :
    (k : Kind) (seq_id : ℕ) → stamp (puber_of k) seq_id (posted_desc k) ≡ desc_of (k, seq_id)
same_desc request seq_id = refl
same_desc response seq_id = refl

puber-known : (k : Kind) → reged base.opers (puber_of k) ≢ none
puber-known request = knows 0 (omega arith)
puber-known response = knows 1 (omega arith)

-- A post that leaves the queue short of full.
post-Holds :
    (k : Kind) (es : List (Kind × ℕ)) (q : EvtQueue)
    → Holds es q
    → length (kinds es) < 255
    → (q' : EvtQueue) × (desc : EvtDesc) × (post_evt
          (puber_of k)
          (posted_desc k)
          (with_queue q base)
        ≡ ok (success, desc, with_queue q' base))
      × Holds (es ++ (k, q.seq_id) ∷ []) q'
post-Holds k es q h room =
    let e : Kind × ℕ = (k, q.seq_id) in
    let free : length (contents q) < q.evt_desc_num_in_queue =
      omega (arith, room, length-kinds es, ap length h.held, h.deep) in
    let (q1, posted, v1, now) =
      post_room 0 base refl (puber_of k) (posted_desc k) q h.valid (puber-known k) free in
    let held : contents q1 ≡ descs (es ++ e ∷ []) =
      ap (λ f. f.waiting) now
      ∙ ap₂ (λ l d. l ++ d ∷ []) h.held (same_desc k q.seq_id)
      ∙ sym (descs-append es (e ∷ [])) in
    (
      q1,
      stamp (puber_of k) q.seq_id (posted_desc k),
      posted,
      record { valid = v1; deep = ap (λ f. f.depth) now ∙ h.deep; held = held },
    )

-- Some requests, and then the answer.
pub answers-Holds :
    (n : ℕ) (es : List (Kind × ℕ)) (q : EvtQueue)
    → Holds es q
    → length (kinds es) + n < 255
    → (rs : List (TosResult × EvtDesc)) × (q' : EvtQueue) × (js : List (Kind × ℕ)) × (post_evts
          (replicate n (0, request_desc) ++ (1, response_desc) ∷ [])
          (with_queue q base)
        ≡ ok (rs, with_queue q' base))
      × Holds js q'
      × (kinds js ≡ kinds es ++ (replicate n request ++ response ∷ []))
      × (results_of rs ≡ replicate (length rs) success)
      × (length rs ≡ suc n)
unfolding post_evts
answers-Holds zero es q h room =
    let (q1, desc, posted, h1) = post-Holds response es q h (omega arith) in
    (
      (success, desc) ∷ [],
      q1,
      es ++ (response, q.seq_id) ∷ [],
      rw posted refl,
      h1,
      kinds-append es ((response, q.seq_id) ∷ []),
      refl,
      refl,
    )
answers-Holds (suc n) es q h room =
    let e : Kind × ℕ = (request, q.seq_id) in
    let (q1, desc, posted, h1) = post-Holds request es q h (omega arith) in
    let more = kinds-append es (e ∷ []) in
    let one_more : length (kinds es ++ request ∷ []) ≡ suc (length (kinds es)) =
      omega (arith, length-append (kinds es) (request ∷ [])) in
    let (rs, q2, js, posts, h2, waits, all, num) =
      answers-Holds n (es ++ e ∷ []) q1 h1 (omega (arith, room, one_more, ap length more)) in
    (
      (success, desc) ∷ rs,
      q2,
      js,
      rw (posted, posts) refl,
      h2,
      waits
          ∙ ap (λ ks. ks ++ (replicate n request ++ response ∷ [])) more
          ∙ append_assoc (kinds es) (request ∷ []) (replicate n request ++ response ∷ []),
      ap (λ l. success ∷ l) all,
      omega (arith, num),
    )

pub ask-Passes :
    (total : ℕ) (moves : List Move) (es : List (Kind × ℕ)) (q : EvtQueue)
    → Holds es q
    → has_room (asks ∷ moves) (kinds es) ≡ true
    → ((fs : List (Kind × ℕ)) (r : EvtQueue)
        → Holds fs r
        → has_room moves (kinds fs) ≡ true
        → Passes total moves fs r)
    → Passes total (asks ∷ moves) es q
unfolding run_turns
ask-Passes total moves es q h fits others =
    let e : Kind × ℕ = (request, q.seq_id) in
    let room : length (kinds es) < 255 = ground (arith, fits) in
    let later : has_room moves (kinds es ++ request ∷ []) ≡ true = ground (arith, fits) in
    let (q1, desc, posted, h1) = post-Holds request es q h room in
    let now_waits = kinds-append es (e ∷ []) in
    let (calls, rs, q2, run, all, num, counts) =
      others (es ++ e ∷ []) q1 h1 (ap (has_room moves) now_waits ∙ later) in
    (
      calls,
      (success, desc) ∷ rs,
      q2,
      rw (posted, run) refl,
      ap (λ l. success ∷ l) all,
      omega (
        arith,
        num,
        ap (due is_b) now_waits,
        due-request is_b (kinds es),
        ap (λ ks. due is_b (left_by moves ks)) now_waits,
      ),
      λ who.
          let (n, sum, c) = counts who in
          (
            n,
            omega (
              arith,
              sum,
              ap (due who) now_waits,
              due-request who (kinds es),
              ap (λ ks. due who (left_by moves ks)) now_waits,
            ),
            c,
          ),
    )
