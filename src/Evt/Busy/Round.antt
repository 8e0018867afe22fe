-- ===== src/Evt/Busy/Round.antt =====
-- A round whose callbacks post is the round without the posts, and then the posts.
use freely_craft_codes.Prelude.{
  ℕ, suc, ◌+◌, ◌<◌, ◌≡◌, ◌≢◌, refl, subst, ◌∙◌, inl, inr, Option, none, some, List, ◌∷◌, [], length,
  ok, ok-injective, ℕ_discrete, arith,
}
use freely_craft_codes.ThinkOs.{TosResult}
use freely_craft_codes.Evt.Types.{EvtDesc}
use freely_craft_codes.Evt.Slots.{Slots}
use freely_craft_codes.Evt.Queue.{EvtQueue}
use freely_craft_codes.Evt.Queue.Invariant.{
  after_take, after_take-IsValid, take_head_empty, take_head-some,
}
use freely_craft_codes.Evt.Queue.Invariant as Ring
use freely_craft_codes.Evt.Queue.Contents.{contents, length-contents, contents-after_take}
use freely_craft_codes.Evt.Queue.{take_event}
use freely_craft_codes.Evt.Psdb.Rows.{Row}
use freely_craft_codes.Evt.Psdb.Dispatch.{CbCall, call_each_suber}
use freely_craft_codes.Evt.Worker.{taken_slot}
use freely_craft_codes.Evt.Manager.{Manager, running, State-discrete}
use freely_craft_codes.Evt.Manager.Invariant.{IsValid, State-cases, running_queue}
use freely_craft_codes.Evt.Manager.Events.{
  with_queue, calls_in, dispatch_table, process_idle, process_none, process_some,
}
use freely_craft_codes.Evt.Manager.Calls.{process_one}
use freely_craft_codes.Evt.Busy.{Posts, post_evts, busy_rows, busy_call_each, process_busy}
use freely_craft_codes.Evt.Busy.Holding.{posts_in, Holding, Does}
use freely_craft_codes.Evt.Busy.Dispatch.{nothing_heard, busy_rows_lem}

-- The posts during the callbacks for the oldest event fit into the queue, once that event has left
-- it.
abbrev pub FitsIn : Posts → Option (Slots Row) → ℕ → List EvtDesc → Type 0
FitsIn during rows depth [] = Unit
FitsIn during rows depth (desc ∷ rest) =
    length rest + length (posts_in during (calls_in desc rows)) < depth

abbrev FitsQueues : Posts → Option (Slots Row) → Option (Slots EvtQueue) → Type 0
FitsQueues during rows (some (some q ∷ [])) =
    FitsIn during rows q.evt_desc_num_in_queue (contents q)
FitsQueues during rows _ = Unit

abbrev pub Fits : Posts → Manager → Type 0
Fits during m = FitsQueues during m.sub_table.rows m.evt_queue_procer

busy_table_lem :
    (during : Posts) (index : ℕ) (desc : EvtDesc) (calls : List CbCall) (m : Manager) (max : ℕ)
    (table : Option (Slots Row))
    → call_each_suber max table desc ≡ ok calls
    → Holding index desc (length (posts_in during calls) + 0) m
    → Does index desc during calls 0 m
        (elim table [ none ↦ ok ([], [], m) | some rows ↦ busy_rows during index max 0 rows m ])
unfolding call_each_suber
busy_table_lem during index desc calls m max none e h =
    nothing_heard during index desc calls 0 m (ok-injective e) h
busy_table_lem during index desc calls m max (some rows) e h =
    busy_rows_lem during index desc max 0 rows calls 0 m e h

busy_idle :
    (during : Posts) (m : Manager) → m.state ≢ running → process_busy during m ≡ ok ([], [], m)
unfolding process_busy
busy_idle during m ne = elim (State-cases m.state) [
  | inl e ↦ ground arith
  | inr (inl e) ↦ ground arith
  | inr (inr e) ↦ absurd (ne e)
]

-- What a round does, against one without posts that is followed by them.
pub data BusyOutcome (during : Posts) (m : Manager) : Type 0 where
  is_same :
      (calls : List CbCall) (rs : List (TosResult × EvtDesc)) (m1 m2 : Manager)
      → process_one m ≡ ok (calls, m1)
      → post_evts (posts_in during calls) m1 ≡ ok (rs, m2)
      → process_busy during m ≡ ok (calls, rs, m2)
      → BusyOutcome during m

quiet :
    (during : Posts) (m : Manager)
    → process_one m ≡ ok ([], m)
    → process_busy during m ≡ ok ([], [], m)
    → BusyOutcome during m
unfolding post_evts
quiet during m e f = is_same [] [] m m e refl f

module _ (during : Posts) (m : Manager) (q : EvtQueue) (f : m.evt_queue_procer ≡ some (some q ∷ []))
    (is_running : m.state ≡ running) where
  busy_none : q.cur_evt_num ≡ 0 → process_busy during m ≡ ok ([], [], m)
  unfolding process_busy
  busy_none e = ground (arith, take_head_empty q e)

  busy_some :
      Ring.IsValid q
      → q.cur_evt_num ≢ 0
      → process_busy during m ≡ busy_call_each during q.cur_evt_head (with_queue (after_take q) m)
  unfolding process_busy
  busy_some v ne = ground (arith, take_head-some q v ne)

-- A round of the thread during whose callbacks events are posted, by the callbacks or by others,
-- does what a round that is not overtaken does and then those posts, one after the other: the same
-- callbacks with the same event, the same answers and the same manager, where the posts fit into
-- the queue. So the thread never has undefined behaviour in such a round.
pub process_busy_lem :
    (tail_cells : ℕ) (during : Posts) (m : Manager)
    → IsValid (suc tail_cells) m
    → Fits during m
    → BusyOutcome during m
unfolding take_event busy_call_each
process_busy_lem tail_cells during m v fits = elim (State-discrete m.state running) [
  | no ne ↦ quiet during m (process_idle m ne) (busy_idle during m ne)
  | yes is_running ↦
      let (q, f, valid) = running_queue m v is_running in
      elim (ℕ_discrete q.cur_evt_num 0) [
        | yes e ↦
            quiet during m (process_none m q is_running f (rw (take_head_empty q e) refl))
              (busy_none during m q f is_running e)
        | no ne ↦
            let (desc, read, first) = contents-after_take q valid ne in
            let rows = m.sub_table.rows in
            let fits_here = subst (FitsQueues during rows) f fits in
            let room = subst (FitsIn during rows q.evt_desc_num_in_queue) first fits_here in
            let dispatched =
              dispatch_table tail_cells m.sub_table.may_evt_num_max rows desc v.sub_rows in
            let (rs, m2, ran, posted, h) =
              busy_table_lem during q.cur_evt_head desc (calls_in desc rows)
                (with_queue (after_take q) m) m.sub_table.may_evt_num_max rows dispatched
                (record {
                  q = after_take q;
                  opers = v.opers;
                  queue = refl;
                  valid = after_take-IsValid q valid ne;
                  at = taken_slot q valid;
                  slot = read;
                  spare = omega (arith, room, length-contents (after_take q));
                }) in
            is_same (calls_in desc rows) rs (with_queue (after_take q) m) m2
              (process_some m q (after_take q) desc (calls_in desc rows) is_running f
                (rw (take_head-some q valid ne, read) refl) dispatched)
              posted (busy_some during m q f is_running valid ne ∙ ran)
      ]
]
