-- ===== src/Evt/Busy/Delivery.antt =====
-- Each accepted event is delivered once, in order.
use freely_craft_codes.Prelude.{
  ℕ, suc, ◌≡◌, refl, sym, ap, ap₂, subst, ◌∙◌, Option, some, List, ◌∷◌, ◌++◌, [], append_assoc,
  append-nil, ok, ok-injective, Bool-cases, inl, inr, length, ◌==◌,
}
use freely_craft_codes.ThinkOs.{TosResult, not_reged}
use freely_craft_codes.Evt.Types.{EvtDesc}
use freely_craft_codes.Evt.Slots.{Slots}
use freely_craft_codes.Evt.Queue.{EvtQueue}
use freely_craft_codes.Evt.Queue.Fifo
use freely_craft_codes.Evt.Queue.Fifo.{Fifo}
use freely_craft_codes.Evt.Queue.Contents.{contents, view}
use freely_craft_codes.Evt.Psdb.Rows.{Row}
use freely_craft_codes.Evt.Psdb.Dispatch.{CbCall}
use freely_craft_codes.Evt.Manager.{Manager, running}
use freely_craft_codes.Evt.Manager.Invariant.{IsValid}
use freely_craft_codes.Evt.Manager.Interface.{post_evt}
use freely_craft_codes.Evt.Manager.Calls.{process_one}
use freely_craft_codes.Evt.Manager.Events.{
  one_queue, with_queue, calls_in, unknown, null_queue, answered, no_thread, waits, delivers,
  post_evt_lem, process_one_lem,
}
use freely_craft_codes.Evt.Busy.{Posts, post_evts, process_busy}
use freely_craft_codes.Evt.Busy.Holding.{posts_in}
use freely_craft_codes.Evt.Busy.Round.{Fits, is_same, process_busy_lem}
use freely_craft_codes.Evt.Busy.Turns.{
  accepted, accepted-append, calls_of, calls_of-append, Turn, posts, rounds, run_turns, After,
  AllFit,
}

-- From one queue to another, the callbacks are those for the events that left it, where the accepted
-- events went in behind.
abbrev Delivers :
    Option (Slots Row) → EvtQueue → List CbCall → List (TosResult × EvtDesc) → EvtQueue → Type 0
Delivers rows q calls rs q' =
    calls_of rows (contents q ++ accepted rs) ≡ calls ++ calls_of rows (contents q')

Delivers-both :
    (rows : Option (Slots Row)) (q q1 q2 : EvtQueue) (c1 c2 : List CbCall)
    (r1 r2 : List (TosResult × EvtDesc))
    → Delivers rows q c1 r1 q1
    → Delivers rows q1 c2 r2 q2
    → Delivers rows q (c1 ++ c2) (r1 ++ r2) q2
Delivers-both rows q q1 q2 c1 c2 r1 r2 d1 d2 =
    ap (λ es. calls_of rows (contents q ++ es)) (accepted-append r1 r2)
    ∙ ap (calls_of rows) (sym (append_assoc (contents q) (accepted r1) (accepted r2)))
    ∙ calls_of-append rows (contents q ++ accepted r1) (accepted r2)
    ∙ ap (λ cs. cs ++ calls_of rows (accepted r2)) d1
    ∙ append_assoc c1 (calls_of rows (contents q1)) (calls_of rows (accepted r2))
    ∙ ap (λ cs. c1 ++ cs) (sym (calls_of-append rows (contents q1) (accepted r2)) ∙ d2)
    ∙ sym (append_assoc c1 c2 (calls_of rows (contents q2)))

post_accepts :
    (p : ℕ) (desc : EvtDesc) (f : Fifo)
    → let (r, d, f') = Fifo.post p desc f in f'.waiting ≡ f.waiting ++ accepted ((r, d) ∷ [])
unfolding Fifo.post
post_accepts p desc f = elim (Bool-cases (length f.waiting == f.depth)) [
  | inl e ↦ rw e (sym (append-nil f.waiting))
  | inr e ↦ rw e refl
]

take_leaves :
    (depth next_seq : ℕ) (waiting : List EvtDesc) (desc : EvtDesc) (f : Fifo)
    → Fifo.take_first depth next_seq waiting ≡ some (desc, f)
    → waiting ≡ desc ∷ f.waiting
unfolding Fifo.take_first
take_leaves depth next_seq [] desc f e = cc
take_leaves depth next_seq (d ∷ rest) desc f e = cc

module _ (tail_cells : ℕ) (m : Manager) (is_running : m.state ≡ running) where
  post_turn :
      (p : ℕ) (desc : EvtDesc) (q : EvtQueue)
      → IsValid (suc tail_cells) (with_queue q m)
      → (r : TosResult × EvtDesc) × (q' : EvtQueue) × (post_evt p desc (with_queue q m)
          ≡ ok (r.0, r.1, with_queue q' m))
        × IsValid (suc tail_cells) (with_queue q' m)
        × Delivers m.sub_table.rows q [] ((r.0, r.1) ∷ []) q'
  post_turn p desc q v = elim (post_evt_lem (suc tail_cells) p desc (with_queue q m) v) [
    | unknown free e ↦
        ((not_reged, desc), q, e, v, ap (calls_of m.sub_table.rows) (append-nil (contents q)))
    | null_queue known ne e ↦ absurd (ne is_running)
    | answered q0 q' r known e0 f e same v' ↦
        let was : view q0 ≡ view q = ap view (one_queue (sym f)) in
        let reply : (r.0, r.1, view q') ≡ Fifo.post p desc (view q) =
          same ∙ ap (Fifo.post p desc) was in
        let now : contents q' ≡ contents q ++ accepted ((r.0, r.1) ∷ []) =
          ap (λ t. t.2.waiting) reply
          ∙ post_accepts p desc (view q)
          ∙ ap (λ t. contents q ++ accepted ((t.0, t.1) ∷ [])) (sym reply) in
        (r, q', e, v', ap (calls_of m.sub_table.rows) (sym now))
  ]

  posts_turn :
      (ps : List (ℕ × EvtDesc)) (q : EvtQueue)
      → IsValid (suc tail_cells) (with_queue q m)
      → (rs : List (TosResult × EvtDesc)) × (q' : EvtQueue) × (post_evts ps (with_queue q m)
          ≡ ok (rs, with_queue q' m))
        × IsValid (suc tail_cells) (with_queue q' m)
        × Delivers m.sub_table.rows q [] rs q'
  unfolding post_evts
  posts_turn [] q v = ([], q, refl, v, ap (calls_of m.sub_table.rows) (append-nil (contents q)))
  posts_turn ((p, desc) ∷ ps) q v =
      let (r, q1, e, v1, d1) = post_turn p desc q v in
      let (rs, q2, es, v2, d2) = posts_turn ps q1 v1 in
      (
        (r.0, r.1) ∷ rs,
        q2,
        rw (e, es) refl,
        v2,
        Delivers-both m.sub_table.rows q q1 q2 [] [] ((r.0, r.1) ∷ []) rs d1 d2,
      )

  -- A round that no post overtakes.
  one_turn :
      (q : EvtQueue)
      → IsValid (suc tail_cells) (with_queue q m)
      → (calls : List CbCall) × (q' : EvtQueue) × (process_one (with_queue q m)
          ≡ ok (calls, with_queue q' m))
        × IsValid (suc tail_cells) (with_queue q' m)
        × Delivers m.sub_table.rows q calls [] q'
  unfolding Fifo.take
  one_turn q v = elim (process_one_lem tail_cells (with_queue q m) v) [
    | no_thread ne e ↦ absurd (ne is_running)
    | waits q0 f none_left e ↦
        ([], q, e, v, ap (calls_of m.sub_table.rows) (append-nil (contents q)))
    | delivers q0 q' desc f first e v' ↦
        let was : contents q0 ≡ contents q = ap contents (one_queue (sym f)) in
        let left : contents q0 ≡ desc ∷ contents q' =
          take_leaves q0.evt_desc_num_in_queue q0.seq_id (contents q0) desc (view q') first in
        (
          calls_in desc m.sub_table.rows,
          q',
          e,
          v',
          ap (calls_of m.sub_table.rows) (append-nil (contents q) ∙ sym was ∙ left),
        )
  ]

  round_turn :
      (during : Posts) (q : EvtQueue)
      → IsValid (suc tail_cells) (with_queue q m)
      → Fits during (with_queue q m)
      → (calls : List CbCall) × (rs : List (TosResult × EvtDesc)) × (q' : EvtQueue) × (process_busy
            during
            (with_queue q m)
          ≡ ok (calls, rs, with_queue q' m))
        × IsValid (suc tail_cells) (with_queue q' m)
        × Delivers m.sub_table.rows q calls rs q'
  round_turn during q v fits = elim (process_busy_lem tail_cells during (with_queue q m) v fits) [
    | is_same calls0 rs0 m1 m2 e0 posted0 e ↦
        let (calls, q1, e1, v1, d1) = one_turn q v in
        let (rs, q2, posted, v2, d2) = posts_turn (posts_in during calls) q1 v1 in
        let same : (calls0, m1) ≡ (calls, with_queue q1 m) = ok-injective (sym e0 ∙ e1) in
        let same2 : (rs0, m2) ≡ (rs, with_queue q2 m) =
          ok-injective
            (sym posted0 ∙ ap (λ t. post_evts (posts_in during t.0) t.1) same ∙ posted) in
        (
          calls,
          rs,
          q2,
          e ∙ ap₂ (λ s t. ok (s.0, t.0, t.1)) same same2,
          v2,
          subst (λ cs. Delivers m.sub_table.rows q cs rs q2) (append-nil calls)
              (Delivers-both m.sub_table.rows q q1 q2 calls [] [] rs d1 d2),
        )
  ]

  turns_lem :
      (turns : List Turn) (q : EvtQueue)
      → IsValid (suc tail_cells) (with_queue q m)
      → AllFit turns (with_queue q m)
      → (calls : List CbCall) × (rs : List (TosResult × EvtDesc)) × (q' : EvtQueue) × (run_turns
            turns
            (with_queue q m)
          ≡ ok (calls, rs, with_queue q' m))
        × IsValid (suc tail_cells) (with_queue q' m)
        × Delivers m.sub_table.rows q calls rs q'
  unfolding run_turns
  turns_lem [] q v fit =
      ([], [], q, refl, v, ap (calls_of m.sub_table.rows) (append-nil (contents q)))
  turns_lem (posts p desc ∷ turns) q v fit =
      let (r, q1, e, v1, d1) = post_turn p desc q v in
      let fit1 = subst (λ t. After t (λ r. AllFit turns r.2)) e fit in
      let (calls, rs, q2, es, v2, d2) = turns_lem turns q1 v1 fit1 in
      (
        calls,
        (r.0, r.1) ∷ rs,
        q2,
        rw (e, es) refl,
        v2,
        Delivers-both m.sub_table.rows q q1 q2 [] calls ((r.0, r.1) ∷ []) rs d1 d2,
      )
  turns_lem (rounds during ∷ turns) q v (now, later) =
      let (calls, rs, q1, e, v1, d1) = round_turn during q v now in
      let fit1 = subst (λ t. After t (λ r. AllFit turns r.2)) e later in
      let (calls2, rs2, q2, es, v2, d2) = turns_lem turns q1 v1 fit1 in
      (
        calls ++ calls2,
        rs ++ rs2,
        q2,
        rw (e, es) refl,
        v2,
        Delivers-both m.sub_table.rows q q1 q2 calls calls2 rs rs2 d1 d2,
      )

-- On a valid manager that runs, where the struct of a row ends with a cell of padding or more:
-- whatever is posted, by clients between the rounds of the thread or during its callbacks, and
-- whatever is refused, in any order in which the posts during each round fit into the queue.
-- Nothing in such a run has undefined behaviour, and every event is delivered once and in order:
-- the callbacks that have been called, followed by those for the events that still wait, are those
-- for the events that waited at first, followed by those for the events that the posts have
-- accepted, in the order of the posts. The manager stays valid, and only its queue changes.
pub run_turns_lem :
    (tail_cells : ℕ) (turns : List Turn) (q : EvtQueue) (m : Manager)
    → IsValid (suc tail_cells) m
    → m.state ≡ running
    → m.evt_queue_procer ≡ some (some q ∷ [])
    → AllFit turns m
    → (calls : List CbCall) × (rs : List (TosResult × EvtDesc)) × (q' : EvtQueue) × (run_turns turns
          m
        ≡ ok (calls, rs, with_queue q' m))
      × IsValid (suc tail_cells) (with_queue q' m)
      × (calls_of m.sub_table.rows (contents q ++ accepted rs)
          ≡ calls ++ calls_of m.sub_table.rows (contents q'))
run_turns_lem tail_cells turns q m v is_running f fit =
    let same : m ≡ with_queue q m = ap (λ t. record m { evt_queue_procer = t }) f in
    let (calls, rs, q', e, v', d) =
      turns_lem tail_cells m is_running turns q (subst (IsValid (suc tail_cells)) same v)
        (subst (AllFit turns) same fit) in
    (calls, rs, q', ap (run_turns turns) same ∙ e, v', d)
