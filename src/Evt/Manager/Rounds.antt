-- ===== src/Evt/Manager/Rounds.antt =====
-- The loop of the test UT_T1_PubSubEvt_Typical, Case01 (PlatIF_EVT_UT_useGtest), on the manager of
-- PlatIF_EVT/PlatIF_Event.c: a publisher posts, and sleeps while the processor's thread takes the
-- event.
use freely_craft_codes.Prelude.{
  ℕ, zero, suc, ◌+◌, ◌<◌, ◌≡◌, ◌≢◌, refl, sym, ap, subst, ◌∙◌, Option, none, some, List, ◌∷◌, ◌++◌,
  [], Run, ok, ◌>>=◌, replicate, arith,
}
use freely_craft_codes.ThinkOs.{TosResult, success, u32}
use freely_craft_codes.Evt.Types.{EvtDesc}
use freely_craft_codes.Evt.Slots.{Slots}
use freely_craft_codes.Evt.Oper.Invariant.{reged}
use freely_craft_codes.Evt.Queue.{EvtQueue, stamp}
use freely_craft_codes.Evt.Queue.Fifo
use freely_craft_codes.Evt.Queue.Fifo.{Fifo}
use freely_craft_codes.Evt.Queue.Contents.{view}
use freely_craft_codes.Evt.Psdb.Dispatch.{CbCall}
use freely_craft_codes.Evt.Psdb.Rows.{Row}
use freely_craft_codes.Evt.Manager.{running, Manager}
use freely_craft_codes.Evt.Manager.Interface.{post_evt}
use freely_craft_codes.Evt.Manager.Calls.{process_one}
use freely_craft_codes.Evt.Manager.Invariant.{IsValid}
use freely_craft_codes.Evt.Manager.Events.{
  one_queue, unknown, null_queue, answered, no_thread, waits, delivers, with_queue, calls_in,
  post_evt_lem, process_one_lem,
}

-- The rounds left, of as many as the loop's `int` EvtCnt counts: what the posts answer, and the
-- callbacks that are called.
unfoldable pub post_rounds :
    ℕ → ℕ → EvtDesc → Manager → Run (List TosResult × List CbCall × Manager)
post_rounds zero p desc m = ok ([], [], m)
post_rounds (suc n) p desc m = do
  posted ← post_evt p desc m
  processed ← process_one posted.2
  rest ← post_rounds n p desc processed.1
  ok (posted.0 ∷ rest.0, processed.0 ++ rest.1, rest.2)

-- What the subscribers are called with: the event with one number after the other.
abbrev pub round_calls : ℕ → ℕ → ℕ → EvtDesc → Option (Slots Row) → List CbCall
round_calls zero p seq_id desc rows = []
round_calls (suc n) p seq_id desc rows =
    calls_in (stamp p seq_id desc) rows ++ round_calls n p (u32 (seq_id + 1)) desc rows

-- A manager that runs, with nothing in its queue.
pub record IsWaiting (tail_cells : ℕ) (q : EvtQueue) (m : Manager) : Type 0 where
  pub valid : IsValid tail_cells m
  pub is_running : m.state ≡ running
  pub queue : m.evt_queue_procer ≡ some (some q ∷ [])
  pub deep : 0 < (view q).depth
  pub empty : (view q).waiting ≡ []

abbrev numbered : Fifo → Fifo
numbered f = record f { next_seq = u32 (f.next_seq + 1) }

post_empty :
    (p : ℕ) (desc : EvtDesc) (f : Fifo)
    → 0 < f.depth
    → f.waiting ≡ []
    → Fifo.post p desc f ≡ (
      success,
      stamp p f.next_seq desc,
      record (numbered f) { waiting = stamp p f.next_seq desc ∷ [] },
    )
unfolding Fifo.post
post_empty p desc f d e = ground arith

data OneRound (tail_cells p : ℕ) (desc : EvtDesc) (q : EvtQueue) (m : Manager) : Type 0 where
  round :
      (m1 : Manager) (q2 : EvtQueue)
      → post_evt p desc m ≡ ok (success, stamp p (view q).next_seq desc, m1)
      → process_one m1
        ≡ ok (calls_in (stamp p (view q).next_seq desc) m.sub_table.rows, with_queue q2 m)
      → view q2 ≡ numbered (view q)
      → IsWaiting tail_cells q2 (with_queue q2 m)
      → OneRound tail_cells p desc q m

-- The event that was posted is the one that is taken.
module _ (tail_cells p : ℕ) (desc : EvtDesc) (q : EvtQueue) (m : Manager)
    (w : IsWaiting (suc tail_cells) q m) where
  deliver_round :
      (q1 : EvtQueue)
      → post_evt p desc m ≡ ok (success, stamp p (view q).next_seq desc, with_queue q1 m)
      → view q1 ≡ record (numbered (view q)) { waiting = stamp p (view q).next_seq desc ∷ [] }
      → IsValid (suc tail_cells) (with_queue q1 m)
      → OneRound (suc tail_cells) p desc q m
  unfolding Fifo.take Fifo.take_first
  deliver_round q1 posted now v1 = elim (process_one_lem tail_cells (with_queue q1 m) v1) [
    | no_thread ne e ↦ absurd (ne w.is_running)
    | waits q2 f none_left e ↦
        let same : q2 ≡ q1 = one_queue (sym f) in
        absurd (ground (arith, ap view same, now, none_left))
    | delivers q2 q3 d f first e v3 ↦
        let same : view q2
            ≡ record (numbered (view q)) { waiting = stamp p (view q).next_seq desc ∷ [] } =
          ap view (one_queue (sym f)) ∙ now in
        let taken : Fifo.take
              (record (numbered (view q)) { waiting = stamp p (view q).next_seq desc ∷ [] })
            ≡ some (d, view q3) =
          ap Fifo.take (sym same) ∙ first in
        let event : stamp p (view q).next_seq desc ≡ d = cc in
        let left : record (numbered (view q)) { waiting = [] } ≡ view q3 = cc in
        let ends : view q3 ≡ numbered (view q) =
          sym left ∙ ap (λ ws. record (numbered (view q)) { waiting = ws }) (sym w.empty) in
        round (with_queue q1 m) q3 posted
          (e ∙ ap (λ t. ok (calls_in t m.sub_table.rows, with_queue q3 m)) (sym event)) ends
          (record {
            valid = v3;
            is_running = w.is_running;
            queue = refl;
            deep = omega (arith, ap (λ t. t.depth) ends, w.deep);
            empty = ap (λ t. t.waiting) (sym left);
          })
  ]

  one_round : reged m.opers p ≢ none → OneRound (suc tail_cells) p desc q m
  one_round known = elim (post_evt_lem (suc tail_cells) p desc m w.valid) [
    | unknown free e ↦ absurd (known free)
    | null_queue k ne e ↦ absurd (ne w.is_running)
    | answered q0 q1 r k is_running f posted same v1 ↦
        let was : view q0 ≡ view q = ap view (one_queue (sym f ∙ w.queue)) in
        let now : (r.0, r.1, view q1) ≡ (
          success,
          stamp p (view q).next_seq desc,
          record (numbered (view q)) { waiting = stamp p (view q).next_seq desc ∷ [] },
        ) =
          same ∙ ap (Fifo.post p desc) was ∙ post_empty p desc (view q) w.deep w.empty in
        deliver_round q1 (posted ∙ ap (λ t. ok (t.0, t.1, with_queue q1 m)) now) (ap (λ t. t.2) now)
          v1
  ]

-- On a valid manager that runs with an empty queue, where the struct of a row ends with a cell of
-- padding or more: any number of posts by a registered operator, each processed before the next, all
-- answer TOS_RESULT_SUCCESS, and each subscriber is called with each event, once for each id that
-- selects it, in the order of the posts and of the table, with one sequence number after the other.
-- The manager is valid again, with an empty queue, and only its queue has changed.
pub post_rounds_lem :
    (tail_cells n p : ℕ) (desc : EvtDesc) (q : EvtQueue) (m : Manager)
    → IsWaiting (suc tail_cells) q m
    → reged m.opers p ≢ none
    → (q' : EvtQueue) × (post_rounds n p desc m
        ≡ ok (
          replicate n success,
          round_calls n p (view q).next_seq desc m.sub_table.rows,
          with_queue q' m,
        ))
      × IsWaiting (suc tail_cells) q' (with_queue q' m)
unfolding post_rounds
post_rounds_lem tail_cells zero p desc q m w known =
    let same : m ≡ with_queue q m = ap (λ t. record m { evt_queue_procer = t }) w.queue in
    (q, ap (λ t. ok ([], [], t)) same, subst (IsWaiting (suc tail_cells) q) same w)
post_rounds_lem tail_cells (suc n) p desc q m w known =
    elim (one_round tail_cells p desc q m w known) [
      | round m1 q2 posted processed ends w2 ↦
          let (q3, rest, w3) = post_rounds_lem tail_cells n p desc q2 (with_queue q2 m) w2 known in
          (
            q3,
            rw (posted, processed, rest)
                (ap
                  (λ (f : Fifo). ok (
                    success ∷ replicate n success,
                    calls_in (stamp p (view q).next_seq desc) m.sub_table.rows
                        ++ round_calls n p f.next_seq desc m.sub_table.rows,
                    with_queue q3 m,
                  ))
                  ends),
            w3,
          )
    ]
