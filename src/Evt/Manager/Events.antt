-- ===== src/Evt/Manager/Events.antt =====
-- Posting an event, and processing the oldest one that waits.
use freely_craft_codes.Prelude.{
  ℕ, suc, ◌≡◌, refl, ◌∙◌, ◌⊎◌, inl, inr, ◌≢◌, Option, none, some, List, ◌∷◌, Run, ok, fault, ◌>>=◌,
  or_fault, get_elem?, arith, [],
}
use freely_craft_codes.ThinkOs.{TosResult, not_reged}
use freely_craft_codes.Evt.Types.{EvtDesc}
use freely_craft_codes.Evt.Slots.{Slots}
use freely_craft_codes.Evt.Oper.Invariant.{reged}
use freely_craft_codes.Evt.Oper.Invariant as OperTable
use freely_craft_codes.Evt.Queue.{EvtQueue, do_post, take_event}
use freely_craft_codes.Evt.Queue.Fifo
use freely_craft_codes.Evt.Queue.Contents.{view}
use freely_craft_codes.Evt.Queue.Refine.{do_post_refines, take_event_refines}
use freely_craft_codes.Evt.Psdb.Dispatch.{CbCall, call_each_suber}
use freely_craft_codes.Evt.Psdb.Rows.{Row}
use freely_craft_codes.Evt.Psdb.Invariant.{IsSuber, IsValidRows?}
use freely_craft_codes.Evt.Psdb.Delivery.{calls_for, call_each_suber_lem}
use freely_craft_codes.Evt.Manager.{State, State-discrete, uninited, ready, running, Manager}
use freely_craft_codes.Evt.Manager.Interface.{post_evt, first_queue, with_first_queue}
use freely_craft_codes.Evt.Manager.Calls.{process_one}
use freely_craft_codes.Evt.Manager.Invariant.{IsValid, HasQueue, State-cases, running_queue}
use freely_craft_codes.Evt.Manager.Clients.{if_reged-cases, queue-IsValid}

abbrev pub with_queue : EvtQueue → Manager → Manager
with_queue q m = record m { evt_queue_procer = some (some q ∷ []) }

pub one_queue : {q q' : EvtQueue} → some (some q ∷ []) ≡ some (some q' ∷ []) → q ≡ q'
one_queue e = cc

-- How a post ends.
pub data PostOutcome (tail_cells evt_puber_id : ℕ) (desc : EvtDesc) (m : Manager) : Type 0 where
  unknown :
      reged m.opers evt_puber_id ≡ none
      → post_evt evt_puber_id desc m ≡ ok (not_reged, desc, m)
      → PostOutcome tail_cells evt_puber_id desc m
  null_queue :
      reged m.opers evt_puber_id ≢ none
      → m.state ≢ running
      → post_evt evt_puber_id desc m ≡ fault
      → PostOutcome tail_cells evt_puber_id desc m
  answered :
      (q q' : EvtQueue) (r : TosResult × EvtDesc)
      → reged m.opers evt_puber_id ≢ none
      → m.state ≡ running
      → m.evt_queue_procer ≡ some (some q ∷ [])
      → post_evt evt_puber_id desc m ≡ ok (r.0, r.1, with_queue q' m)
      → (r.0, r.1, view q') ≡ Fifo.post evt_puber_id desc (view q)
      → IsValid tail_cells (with_queue q' m)
      → PostOutcome tail_cells evt_puber_id desc m

-- The callbacks for an event, with or without a table.
abbrev pub calls_in : EvtDesc → Option (Slots Row) → List CbCall
calls_in desc none = []
calls_in desc (some rows) = calls_for desc rows

-- How a round of the processor's thread ends.
pub data ProcessOutcome (tail_cells : ℕ) (m : Manager) : Type 0 where
  no_thread : m.state ≢ running → process_one m ≡ ok ([], m) → ProcessOutcome tail_cells m
  waits :
      (q : EvtQueue)
      → m.evt_queue_procer ≡ some (some q ∷ [])
      → Fifo.take (view q) ≡ none
      → process_one m ≡ ok ([], m)
      → ProcessOutcome tail_cells m
  delivers :
      (q q' : EvtQueue) (desc : EvtDesc)
      → m.evt_queue_procer ≡ some (some q ∷ [])
      → Fifo.take (view q) ≡ some (desc, view q')
      → process_one m ≡ ok (calls_in desc m.sub_table.rows, with_queue q' m)
      → IsValid tail_cells (with_queue q' m)
      → ProcessOutcome tail_cells m

-- Without a queue there is nothing to dereference.
no_first_queue :
    (s : State) (queues : Option (Slots EvtQueue))
    → s ≢ running
    → HasQueue s queues
    → (or_fault queues >>= λ qs. or_fault (get_elem? qs 0) >>= λ slot. or_fault slot) ≡ fault
no_first_queue uninited none ne h = refl
no_first_queue uninited (some queues) ne h = elim h [ ]
no_first_queue ready none ne h = refl
no_first_queue ready (some queues) ne h = ground arith
no_first_queue running queues ne h = absurd (ne refl)

pub dispatch_table :
    (tail_cells max : ℕ) (table : Option (Slots Row)) (desc : EvtDesc)
    → IsValidRows? (IsSuber (suc tail_cells)) max table
    → call_each_suber max table desc ≡ ok (calls_in desc table)
unfolding call_each_suber
dispatch_table tail_cells max none desc v = refl
dispatch_table tail_cells max (some rows) desc v = call_each_suber_lem tail_cells max rows desc v

module _ (m : Manager) where
  post_reged : (p : ℕ) (desc : EvtDesc) → Run (TosResult × EvtDesc × Manager)
  post_reged p desc = do
    q ← first_queue m
    posted ← do_post p desc q
    ok (posted.0, posted.1, with_first_queue posted.2 m)

  post_first :
      (p : ℕ) (desc : EvtDesc) (q q' : EvtQueue) (r : TosResult × EvtDesc)
      → m.evt_queue_procer ≡ some (some q ∷ [])
      → do_post p desc q ≡ ok (r.0, r.1, q')
      → post_reged p desc ≡ ok (r.0, r.1, with_queue q' m)
  unfolding post_reged
  post_first p desc q q' r f run = ground arith

  -- What a post does, by what it does on the queue.
  pub post_evt-either :
      (p : ℕ) (desc : EvtDesc) (q q' : EvtQueue) (r : TosResult × EvtDesc)
      → OperTable.IsValid m.opers
      → m.evt_queue_procer ≡ some (some q ∷ [])
      → do_post p desc q ≡ ok (r.0, r.1, q')
      → ((reged m.opers p ≢ none) × (post_evt p desc m ≡ ok (r.0, r.1, with_queue q' m)))
        ⊎ ((reged m.opers p ≡ none) × (post_evt p desc m ≡ ok (not_reged, desc, m)))
  unfolding post_evt post_reged
  post_evt-either p desc q q' r v f run =
      elim (if_reged-cases p m (ok (not_reged, desc, m)) (post_reged p desc) v) [
        | inl (known, e) ↦ inl (known, e ∙ post_first p desc q q' r f run)
        | inr (free, e) ↦ inr (free, e)
      ]

  pub process_idle : m.state ≢ running → process_one m ≡ ok ([], m)
  unfolding process_one
  process_idle ne = elim (State-cases m.state) [
    | inl e ↦ ground arith
    | inr (inl e) ↦ ground arith
    | inr (inr e) ↦ absurd (ne e)
  ]

  pub process_none :
      (q : EvtQueue)
      → m.state ≡ running
      → m.evt_queue_procer ≡ some (some q ∷ [])
      → take_event q ≡ ok none
      → process_one m ≡ ok ([], m)
  unfolding process_one
  process_none q e f empty = ground arith

  pub process_some :
      (q q' : EvtQueue) (desc : EvtDesc) (calls : List CbCall)
      → m.state ≡ running
      → m.evt_queue_procer ≡ some (some q ∷ [])
      → take_event q ≡ ok (some (desc, q'))
      → call_each_suber m.sub_table.may_evt_num_max m.sub_table.rows desc ≡ ok calls
      → process_one m ≡ ok (calls, with_queue q' m)
  unfolding process_one
  process_some q q' desc calls e f took called = ground arith

-- Posting on a valid manager ends in one of three ways. If the poster is not registered, the answer
-- is TOS_RESULT_NOT_REGED and nothing changes. If it is, and the manager runs, the queue behaves as
-- the bounded list of the events that wait: the answer, what is written to the caller's descriptor
-- and the events that wait next are the list's; the manager stays valid, and only its queue changes.
-- If it is, and the manager does not run, the NULL for the queue is dereferenced.
pub post_evt_lem :
    (tail_cells p : ℕ) (desc : EvtDesc) (m : Manager)
    → IsValid tail_cells m
    → PostOutcome tail_cells p desc m
unfolding post_evt post_reged
post_evt_lem tail_cells p desc m v =
    elim (if_reged-cases p m (ok (not_reged, desc, m)) (post_reged m p desc) v.opers) [
      | inr (free, e) ↦ unknown free e
      | inl (known, e) ↦ elim (State-discrete m.state running) [
        | no ne ↦
            null_queue known ne (e ∙ rw (no_first_queue m.state m.evt_queue_procer ne v.queue))
        | yes is_running ↦
            let (q, f, valid) = running_queue m v is_running in
            let (q', r, run, same, valid') = do_post_refines p desc q valid in
            answered q q' r known is_running f (e ∙ post_first m p desc q q' r f run) same
              (queue-IsValid m v q' is_running valid')
      ]
    ]

-- A round of the processor's thread on a valid manager never has undefined behaviour, where the
-- struct of a row ends with a cell of padding or more and no post overtakes the round. Without a
-- thread or an event nothing happens; otherwise the oldest event leaves the queue, and the callbacks
-- of exactly the ids that select it are called, in the order of the table.
pub process_one_lem :
    (tail_cells : ℕ) (m : Manager) → IsValid (suc tail_cells) m → ProcessOutcome (suc tail_cells) m
unfolding process_one
process_one_lem tail_cells m v = elim (State-discrete m.state running) [
  | no ne ↦ no_thread ne (process_idle m ne)
  | yes is_running ↦
      let (q, f, valid) = running_queue m v is_running in
      elim (take_event_refines q valid) [
        | inl (empty, took) ↦ waits q f took (process_none m q is_running f empty)
        | inr (desc, q', took, first, valid') ↦
            delivers q q' desc f first
              (process_some m q q' desc (calls_in desc m.sub_table.rows) is_running f took (
                dispatch_table tail_cells m.sub_table.may_evt_num_max m.sub_table.rows desc
                  v.sub_rows))
              (queue-IsValid m v q' is_running valid')
      ]
]
