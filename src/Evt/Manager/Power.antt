-- ===== src/Evt/Manager/Power.antt =====
-- What `PLT_EVT_enableEvtManger` and `PLT_EVT_disableEvtManger` promise.
use freely_craft_codes.Prelude.{
  ℕ, ◌≡◌, refl, ap, subst, ◌⊎◌, inl, inr, ◌≢◌, Bool, true, false, Option, none, some, ◌∷◌,
  if◌then◌else◌, ok, arith, [],
}
use freely_craft_codes.ThinkOs.{success, bad_state, bug, not_enough_memory}
use freely_craft_codes.Evt.Slots.{Slots, find_free}
use freely_craft_codes.Evt.Queue.{EvtQueue, new_queue}
use freely_craft_codes.Evt.Queue.Invariant.{new_queue-IsValid}
use freely_craft_codes.Evt.Manager.{State, ready, running, Manager}
use freely_craft_codes.Evt.Manager.Lifecycle.{
  startup_evt_procer, enable_evt_manger, stop_evt_procer, disable_evt_manger,
}
use freely_craft_codes.Evt.Manager.Invariant.{IsValid, HasQueue, State-cases, running_queue}

abbrev pub with_procer : State → Slots EvtQueue → Manager → Manager
with_procer s queues m = record m { state = s; evt_queue_procer = some queues }

-- The manager with a new queue, and the one whose queue is freed.
abbrev pub started : Manager → Manager
started m = with_procer running (some (new_queue m.may_evt_desc_queue_num_max) ∷ []) m

abbrev pub stopped : Manager → Manager
stopped m = with_procer ready (none ∷ []) m

-- How enabling ends.
pub data EnableOutcome (tail_cells : ℕ) (calloc_ok : Bool) (m : Manager) : Type 0 where
  refused :
      m.state ≢ ready
      → enable_evt_manger calloc_ok m ≡ ok (bad_state, m)
      → EnableOutcome tail_cells calloc_ok m
  no_tables :
      m.state ≡ ready
      → m.evt_queue_procer ≡ none
      → enable_evt_manger calloc_ok m ≡ ok (bug, m)
      → EnableOutcome tail_cells calloc_ok m
  no_memory :
      m.state ≡ ready
      → calloc_ok ≡ false
      → enable_evt_manger calloc_ok m ≡ ok (not_enough_memory, m)
      → EnableOutcome tail_cells calloc_ok m
  runs :
      m.state ≡ ready
      → calloc_ok ≡ true
      → enable_evt_manger calloc_ok m ≡ ok (success, started m)
      → IsValid tail_cells (started m)
      → EnableOutcome tail_cells calloc_ok m

-- How disabling ends.
pub data DisableOutcome (tail_cells : ℕ) (m : Manager) : Type 0 where
  idle : m.state ≢ running → disable_evt_manger m ≡ ok m → DisableOutcome tail_cells m
  stops :
      m.state ≡ running
      → disable_evt_manger m ≡ ok (stopped m)
      → IsValid tail_cells (stopped m)
      → DisableOutcome tail_cells m

module _ (tail_cells : ℕ) (m : Manager) (v : IsValid tail_cells m) where
  with_procer-IsValid :
      (s : State) (queues : Slots EvtQueue)
      → HasQueue s (some queues)
      → IsValid tail_cells (with_procer s queues m)
  with_procer-IsValid s queues h = record {
    opers = v.opers;
    pub_rows = v.pub_rows;
    sub_rows = v.sub_rows;
    one_queue = v.one_queue;
    deep = v.deep;
    deep_small = v.deep_small;
    queue = h;
  }

  -- The table of a ready manager: none, or one free slot.
  ready_table :
      m.state ≡ ready → (m.evt_queue_procer ≡ none) ⊎ (m.evt_queue_procer ≡ some (none ∷ []))
  ready_table e = found m.evt_queue_procer (subst (λ s. HasQueue s m.evt_queue_procer) e v.queue)
    where
      found :
          (queues : Option (Slots EvtQueue))
          → HasQueue ready queues
          → (queues ≡ none) ⊎ (queues ≡ some (none ∷ []))
      found none h = inl refl
      found (some queues) h = inr (ap some h)

  finds_slot : find_free {A = EvtQueue} m.may_evt_queue_num_max 0 (none ∷ []) ≡ ok (some 0)
  unfolding find_free
  finds_slot = ap (λ n. find_free {A = EvtQueue} n 0 (none ∷ [])) v.one_queue

  stops_one :
      (q : EvtQueue) → stop_evt_procer m.may_evt_queue_num_max 0 (some q ∷ []) ≡ ok (none ∷ [])
  unfolding stop_evt_procer
  stops_one q = ap (λ n. stop_evt_procer n 0 (some q ∷ [])) v.one_queue

  startup_without :
      (calloc_ok : Bool) → m.evt_queue_procer ≡ none → startup_evt_procer calloc_ok m ≡ ok (bug, m)
  unfolding startup_evt_procer
  startup_without calloc_ok f = rw f

  startup_with :
      (calloc_ok : Bool)
      → m.evt_queue_procer ≡ some (none ∷ [])
      → startup_evt_procer calloc_ok m
        ≡ ok (
            if calloc_ok
            then (
              success,
              with_procer m.state (some (new_queue m.may_evt_desc_queue_num_max) ∷ []) m,
            )
            else (not_enough_memory, m))
  unfolding startup_evt_procer
  startup_with true f = rw (f, finds_slot)
  startup_with false f = rw (f, finds_slot)

  enable_ready :
      (calloc_ok : Bool)
      → m.state ≡ ready
      → m.evt_queue_procer ≡ some (none ∷ [])
      → EnableOutcome tail_cells calloc_ok m
  unfolding enable_evt_manger
  enable_ready true e f =
      runs e refl (ground (arith, startup_with true f))
        (with_procer-IsValid running _ (_, refl, new_queue-IsValid _ v.deep v.deep_small))
  enable_ready false e f = no_memory e refl (ground (arith, startup_with false f))

-- Enabling a valid manager never has undefined behaviour, and ends in one of four ways. Unless it
-- is ready, it refuses with TOS_RESULT_BAD_STATE; a ready manager that was initialized without
-- arguments answers TOS_RESULT_BUG, and one without memory for the queue
-- TOS_RESULT_NOT_ENOUGH_MEMORY: in these three cases nothing changes. Otherwise it runs, with a new
-- empty queue, and stays valid.
pub enable_evt_manger_lem :
    (tail_cells : ℕ) (calloc_ok : Bool) (m : Manager)
    → IsValid tail_cells m
    → EnableOutcome tail_cells calloc_ok m
unfolding enable_evt_manger
enable_evt_manger_lem tail_cells calloc_ok m v = elim (State-cases m.state) [
  | inl e ↦ refused (λ p. cc) (rw e)
  | inr (inl e) ↦ elim (ready_table tail_cells m v e) [
    | inl f ↦ no_tables e f (ground (arith, startup_without tail_cells m v calloc_ok f))
    | inr f ↦ enable_ready tail_cells m v calloc_ok e f
  ]
  | inr (inr e) ↦ refused (λ p. cc) (rw e)
]

-- Disabling a valid manager never has undefined behaviour. It does nothing unless the manager runs;
-- then the queue goes, with the events that wait in it, and the manager is ready and valid.
pub disable_evt_manger_lem :
    (tail_cells : ℕ) (m : Manager) → IsValid tail_cells m → DisableOutcome tail_cells m
unfolding disable_evt_manger
disable_evt_manger_lem tail_cells m v = elim (State-cases m.state) [
  | inl e ↦ idle (λ p. cc) (rw e)
  | inr (inl e) ↦ idle (λ p. cc) (rw e)
  | inr (inr e) ↦
      let (q, f, valid) = running_queue m v e in
      stops e (ground (arith, stops_one tail_cells m v q))
        (with_procer-IsValid tail_cells m v ready _ refl)
]
