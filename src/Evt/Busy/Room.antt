-- ===== src/Evt/Busy/Room.antt =====
-- Posts that find room, and rounds whose posts find room, on a manager that runs.
use freely_craft_codes.Prelude.{
  ℕ, suc, ◌+◌, ◌<◌, ◌≡◌, ◌≢◌, refl, sym, ap, subst, ◌∙◌, none, some, List, ◌∷◌, ◌++◌, [], ok,
  ok-injective, length, ◌==◌, false, arith,
}
use freely_craft_codes.ThinkOs.{TosResult, success, u32}
use freely_craft_codes.Evt.Types.{EvtDesc}
use freely_craft_codes.Evt.Oper.Invariant.{reged}
use freely_craft_codes.Evt.Queue.{EvtQueue, stamp}
use freely_craft_codes.Evt.Queue.Fifo
use freely_craft_codes.Evt.Queue.Fifo.{Fifo}
use freely_craft_codes.Evt.Queue.Contents.{contents, view, length-contents}
use freely_craft_codes.Evt.Queue.Invariant as Ring
use freely_craft_codes.Evt.Psdb.Dispatch.{CbCall}
use freely_craft_codes.Evt.Manager.{Manager, running}
use freely_craft_codes.Evt.Manager.Invariant.{IsValid, running_queue}
use freely_craft_codes.Evt.Manager.Interface.{post_evt}
use freely_craft_codes.Evt.Manager.Calls.{process_one}
use freely_craft_codes.Evt.Manager.Events.{
  one_queue, with_queue, calls_in, unknown, null_queue, answered, no_thread, waits, delivers,
  post_evt_lem, process_one_lem,
}
use freely_craft_codes.Evt.Busy.{Posts, post_evts, process_busy}
use freely_craft_codes.Evt.Busy.Holding.{posts_in}
use freely_craft_codes.Evt.Busy.Round.{FitsIn, Fits, is_same, process_busy_lem}

pub no_posts : (calls : List CbCall) → posts_in (λ call. []) calls ≡ []
no_posts [] = refl
no_posts (call ∷ calls) = no_posts calls

-- What a post makes of a queue that has room.
abbrev pub with_event : ℕ → EvtDesc → Fifo → Fifo
with_event p desc f = record f {
  next_seq = u32 (f.next_seq + 1);
  waiting = f.waiting ++ stamp p f.next_seq desc ∷ [];
}

abbrev pub with_waiting : List EvtDesc → Fifo → Fifo
with_waiting waiting f = record f { waiting = waiting }

has_room :
    (p : ℕ) (desc : EvtDesc) (f : Fifo)
    → length f.waiting < f.depth
    → Fifo.post p desc f ≡ (success, stamp p f.next_seq desc, with_event p desc f)
unfolding Fifo.post
has_room p desc f h =
    let not_full : (length f.waiting == f.depth) ≡ false = ground arith in rw not_full refl

module _ (tail_cells : ℕ) (m : Manager) (is_running : m.state ≡ running) where
  pub post_room :
      (p : ℕ) (desc : EvtDesc) (q : EvtQueue)
      → IsValid (suc tail_cells) (with_queue q m)
      → reged m.opers p ≢ none
      → length (contents q) < q.evt_desc_num_in_queue
      → (q' : EvtQueue) × (post_evt p desc (with_queue q m)
          ≡ ok (success, stamp p q.seq_id desc, with_queue q' m))
        × IsValid (suc tail_cells) (with_queue q' m)
        × (view q' ≡ with_event p desc (view q))
  post_room p desc q v known h = elim (post_evt_lem (suc tail_cells) p desc (with_queue q m) v) [
    | unknown free e ↦ absurd (known free)
    | null_queue k ne e ↦ absurd (ne is_running)
    | answered q0 q' r k e0 f e same v' ↦
        let was : view q0 ≡ view q = ap view (one_queue (sym f)) in
        let reply : (r.0, r.1, view q')
            ≡ (success, stamp p q.seq_id desc, with_event p desc (view q)) =
          same ∙ ap (Fifo.post p desc) was ∙ has_room p desc (view q) h in
        (q', e ∙ ap (λ t. ok (t.0, t.1, with_queue q' m)) reply, v', ap (λ t. t.2) reply)
  ]

  -- A round, from what it does without the posts.
  pub busy_same :
      (during : Posts) (q : EvtQueue)
      → IsValid (suc tail_cells) (with_queue q m)
      → Fits during (with_queue q m)
      → (calls : List CbCall) (rs : List (TosResult × EvtDesc)) (m1 m2 : Manager)
      → process_one (with_queue q m) ≡ ok (calls, m1)
      → post_evts (posts_in during calls) m1 ≡ ok (rs, m2)
      → process_busy during (with_queue q m) ≡ ok (calls, rs, m2)
  busy_same during q v fits calls rs m1 m2 e posted =
      elim (process_busy_lem tail_cells during (with_queue q m) v fits) [
        | is_same calls0 rs0 n1 n2 e0 posted0 busy ↦
            let same : (calls0, n1) ≡ (calls, m1) = ok-injective (sym e0 ∙ e) in
            let ends : (rs0, n2) ≡ (rs, m2) =
              ok-injective
                (sym posted0 ∙ ap (λ t. post_evts (posts_in during t.0) t.1) same ∙ posted) in
            busy ∙ ground (arith, same, ends)
      ]

  -- The oldest event is taken.
  pub one_some :
      (q : EvtQueue) (d : EvtDesc) (ds : List EvtDesc)
      → IsValid (suc tail_cells) (with_queue q m)
      → contents q ≡ d ∷ ds
      → (q' : EvtQueue) × (process_one (with_queue q m)
          ≡ ok (calls_in d m.sub_table.rows, with_queue q' m))
        × IsValid (suc tail_cells) (with_queue q' m)
        × (view q' ≡ with_waiting ds (view q))
  unfolding Fifo.take Fifo.take_first
  one_some q d ds v now = elim (process_one_lem tail_cells (with_queue q m) v) [
    | no_thread ne e ↦ absurd (ne is_running)
    | waits q0 f none_left e ↦
        let was : contents q0 ≡ d ∷ ds = ap contents (one_queue (sym f)) ∙ now in
        absurd (ground (arith, was, none_left))
    | delivers q0 q' desc f first e v' ↦
        let was : view q0 ≡ with_waiting (d ∷ ds) (view q) =
          ap view (one_queue (sym f)) ∙ ap (λ ws. with_waiting ws (view q)) now in
        let taken : Fifo.take (with_waiting (d ∷ ds) (view q)) ≡ some (desc, view q') =
          ap Fifo.take (sym was) ∙ first in
        let event : d ≡ desc = cc in
        let left : with_waiting ds (view q) ≡ view q' = cc in
        (
          q',
          e ∙ ap (λ t. ok (calls_in t m.sub_table.rows, with_queue q' m)) (sym event),
          v',
          sym left,
        )
  ]

  -- A round with nothing to take.
  pub busy_none :
      (during : Posts) (q : EvtQueue)
      → IsValid (suc tail_cells) (with_queue q m)
      → contents q ≡ []
      → process_busy during (with_queue q m) ≡ ok ([], [], with_queue q m)
  unfolding Fifo.take Fifo.take_first post_evts
  busy_none during q v empty =
      let fits : Fits during (with_queue q m) =
        subst (FitsIn during m.sub_table.rows q.evt_desc_num_in_queue) (sym empty) tt in
      elim (process_one_lem tail_cells (with_queue q m) v) [
        | no_thread ne e ↦ absurd (ne is_running)
        | waits q0 f none_left e ↦
            busy_same during q v fits [] [] (with_queue q m) (with_queue q m) e refl
        | delivers q0 q' desc f first e v' ↦
            let was : contents q0 ≡ [] = ap contents (one_queue (sym f)) ∙ empty in
            absurd (ground (arith, was, first))
      ]

  -- Once the oldest event is taken, there is room for one more.
  pub room_after :
      (q : EvtQueue) (d : EvtDesc) (ds : List EvtDesc)
      → IsValid (suc tail_cells) (with_queue q m)
      → contents q ≡ d ∷ ds
      → length ds < q.evt_desc_num_in_queue
  room_after q d ds v now =
      let (q0, f, ring) = running_queue (with_queue q m) v is_running in
      let ring' : Ring.IsValid q = subst Ring.IsValid (one_queue (sym f)) ring in
      omega (arith, ring'.num_in, length-contents q, ap length now)

  -- A round that takes an event and during which nothing is posted.
  pub quiet_some :
      (during : Posts) (q : EvtQueue) (d : EvtDesc) (ds : List EvtDesc)
      → IsValid (suc tail_cells) (with_queue q m)
      → contents q ≡ d ∷ ds
      → posts_in during (calls_in d m.sub_table.rows) ≡ []
      → (q' : EvtQueue) × (process_busy during (with_queue q m)
          ≡ ok (calls_in d m.sub_table.rows, [], with_queue q' m))
        × IsValid (suc tail_cells) (with_queue q' m)
        × (view q' ≡ with_waiting ds (view q))
  unfolding post_evts
  quiet_some during q d ds v now silent =
      let (q1, took, v1, left) = one_some q d ds v now in
      let fits : Fits during (with_queue q m) =
        subst (FitsIn during m.sub_table.rows q.evt_desc_num_in_queue) (sym now)
          (omega (arith, room_after q d ds v now, ap length silent)) in
      (
        q1,
        busy_same during q v fits (calls_in d m.sub_table.rows) [] (with_queue q1 m)
            (with_queue q1 m) took (ap (λ ps. post_evts ps (with_queue q1 m)) silent),
        v1,
        left,
      )

  -- A round that takes an event and during which one is posted by a registered operator.
  pub answer_some :
      (during : Posts) (q : EvtQueue) (d : EvtDesc) (ds : List EvtDesc) (p : ℕ) (answer : EvtDesc)
      → IsValid (suc tail_cells) (with_queue q m)
      → contents q ≡ d ∷ ds
      → posts_in during (calls_in d m.sub_table.rows) ≡ (p, answer) ∷ []
      → reged m.opers p ≢ none
      → length ds + 1 < q.evt_desc_num_in_queue
      → (q' : EvtQueue) × (process_busy during (with_queue q m)
          ≡ ok (
            calls_in d m.sub_table.rows,
            (success, stamp p q.seq_id answer) ∷ [],
            with_queue q' m,
          ))
        × IsValid (suc tail_cells) (with_queue q' m)
        × (view q' ≡ with_event p answer (with_waiting ds (view q)))
  unfolding post_evts
  answer_some during q d ds p answer v now one known room =
      let (q1, took, v1, left) = one_some q d ds v now in
      let fits : Fits during (with_queue q m) =
        subst (FitsIn during m.sub_table.rows q.evt_desc_num_in_queue) (sym now)
          (omega (arith, room, ap length one)) in
      let free : length (contents q1) < q1.evt_desc_num_in_queue =
        omega (arith, room, ap (λ f. length f.waiting) left, ap (λ f. f.depth) left) in
      let (q2, posted, v2, more) = post_room p answer q1 v1 known free in
      let seq : q1.seq_id ≡ q.seq_id = ap (λ f. f.next_seq) left in
      let answered_by : post_evts ((p, answer) ∷ []) (with_queue q1 m)
          ≡ ok ((success, stamp p q.seq_id answer) ∷ [], with_queue q2 m) =
        rw posted (ap (λ k. ok ((success, stamp p k answer) ∷ [], with_queue q2 m)) seq) in
      (
        q2,
        busy_same during q v fits (calls_in d m.sub_table.rows)
            ((success, stamp p q.seq_id answer) ∷ []) (with_queue q1 m) (with_queue q2 m) took
            (ap (λ ps. post_evts ps (with_queue q1 m)) one ∙ answered_by),
        v2,
        more ∙ ap (with_event p answer) left,
      )
