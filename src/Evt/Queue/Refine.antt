-- ===== src/Evt/Queue/Refine.antt =====
-- A valid queue behaves as the bounded list of the events that it holds.
use freely_craft_codes.Prelude.{
  ℕ, ◌≡◌, refl, ◌⊎◌, inl, inr, none, some, Run, ok, ◌>>=◌, arith, ap, List, [], ◌∷◌, ℕ_discrete,
}
use freely_craft_codes.ThinkOs.{TosResult, success, too_many_pubed_events}
use freely_craft_codes.Evt.Types.{EvtDesc}
use freely_craft_codes.Evt.Queue.{EvtQueue, do_post, take_event, stamp}
use freely_craft_codes.Evt.Queue.Invariant.{
  IsValid, after_post, after_take, do_post_full, do_post_room, after_post-IsValid, take_head_empty,
  take_head-some, after_take-IsValid,
}
use freely_craft_codes.Evt.Queue.Contents.{
  window, view, length-contents, contents-after_post, contents-after_take,
}
use freely_craft_codes.Evt.Queue.Fifo
use freely_craft_codes.Evt.Queue.Fifo.{Fifo, Call, posts, takes, Reply, posted, taken}

-- The replies of the queue to a sequence of calls, each made under the mutex.
unfoldable pub run : List Call → EvtQueue → Run (List Reply)
run [] q = ok []
run (posts p desc ∷ calls) q = do
  r ← do_post p desc q
  replies ← run calls r.2
  ok (posted r.0 r.1 ∷ replies)
run (takes ∷ calls) q = do
  t ← take_event q
  elim t [
    | none ↦ (do replies ← run calls q; ok (taken none ∷ replies))
    | some (desc, q') ↦ (do replies ← run calls q'; ok (taken (some desc) ∷ replies))
  ]

-- A post on a valid queue has no undefined behaviour, answers and stamps as the bounded list does,
-- and leaves a valid queue that holds the list's events.
pub do_post_refines :
    (p : ℕ) (desc : EvtDesc) (q : EvtQueue)
    → IsValid q
    → (q' : EvtQueue) × (r : TosResult × EvtDesc) × (do_post p desc q ≡ ok (r.0, r.1, q'))
      × ((r.0, r.1, view q') ≡ Fifo.post p desc (view q))
      × IsValid q'
unfolding Fifo.post
do_post_refines p desc q v = elim (ℕ_discrete q.cur_evt_num q.evt_desc_num_in_queue) [
  | yes e ↦ (
    q,
    (too_many_pubed_events, desc),
    do_post_full p desc q e,
    ground (arith, length-contents q),
    v,
  )
  | no ne ↦ (
    after_post p desc q,
    (success, stamp p q.seq_id desc),
    do_post_room p desc q v ne,
    ground (arith, length-contents q, contents-after_post p desc q v ne),
    after_post-IsValid p desc q v ne,
  )
]

no_events : (q : EvtQueue) → q.cur_evt_num ≡ 0 → Fifo.take (view q) ≡ none
unfolding Fifo.take
no_events q e =
    ap
      (λ n.
        Fifo.take_first q.evt_desc_num_in_queue q.seq_id
          (window q.evt_desc_queue q.evt_desc_num_in_queue q.cur_evt_head n))
      e

-- A take waits on an empty queue only, and otherwise yields the oldest event.
pub take_event_refines :
    (q : EvtQueue)
    → IsValid q
    → ((take_event q ≡ ok none) × (Fifo.take (view q) ≡ none))
      ⊎ ((desc : EvtDesc) × (q' : EvtQueue) × (take_event q ≡ ok (some (desc, q')))
          × (Fifo.take (view q) ≡ some (desc, view q'))
          × IsValid q')
unfolding take_event Fifo.take
take_event_refines q v = elim (ℕ_discrete q.cur_evt_num 0) [
  | yes e ↦ inl (rw (take_head_empty q e), no_events q e)
  | no ne ↦
      let (desc, read, first) = contents-after_take q v ne in
      inr
        (desc, after_take q, rw (take_head-some q v ne, read), rw first, after_take-IsValid q v ne)
]

-- No sequence of posts and takes tells a valid queue from the bounded list of its events.
pub run_refines :
    (calls : List Call) (q : EvtQueue) → IsValid q → run calls q ≡ ok (Fifo.run calls (view q))
unfolding run Fifo.run
run_refines [] q v = refl
run_refines (posts p desc ∷ calls) q v =
    let (q', r, run_post, same, v') = do_post_refines p desc q v in
    rw (run_post, ← same, run_refines calls q' v')
run_refines (takes ∷ calls) q v = elim (take_event_refines q v) [
  | inl (waits, empty) ↦ rw (waits, Fifo.run, empty, run_refines calls q v)
  | inr (desc, q', took, first, v') ↦ rw (took, Fifo.run, first, run_refines calls q' v')
]
