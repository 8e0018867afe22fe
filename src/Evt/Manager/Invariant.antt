-- ===== src/Evt/Manager/Invariant.antt =====
-- When the static variables of the manager are well formed.
use freely_craft_codes.Prelude.{
  ℕ, ◌<◌, ◌^◌, ◌≡◌, refl, ap, subst, ◌⊎◌, inl, inr, Option, none, some, ◌∷◌, arith, [],
}
use freely_craft_codes.Evt.Slots.{Slots}
use freely_craft_codes.Evt.Oper.Invariant as OperTable
use freely_craft_codes.Evt.Queue.{EvtQueue}
use freely_craft_codes.Evt.Queue.Invariant as Ring
use freely_craft_codes.Evt.Psdb.Invariant.{IsPuber, IsSuber}
use freely_craft_codes.Evt.Psdb.Invariant as Rows
use freely_craft_codes.Evt.Manager.{State, uninited, ready, running, Manager, initial}

-- There is a queue, with its thread, exactly while the manager runs, and no table before it is
-- initialized.
abbrev pub HasQueue : State → Option (Slots EvtQueue) → Type 0
HasQueue uninited none = Unit {0}
HasQueue uninited (some queues) = ⊥
HasQueue ready none = Unit {0}
HasQueue ready (some queues) = queues ≡ none ∷ []
HasQueue running none = ⊥
HasQueue running (some queues) = (q : EvtQueue) × (queues ≡ some q ∷ []) × Ring.IsValid q

pub record IsValid (tail_cells : ℕ) (m : Manager) : Type 0 where
  pub opers : OperTable.IsValid m.opers
  pub pub_rows : Rows.IsValid (IsPuber tail_cells) m.pub_table
  pub sub_rows : Rows.IsValid (IsSuber tail_cells) m.sub_table
  pub one_queue : m.may_evt_queue_num_max ≡ 1
  pub deep : 0 < m.may_evt_desc_queue_num_max
  pub deep_small : m.may_evt_desc_queue_num_max < 2 ^ 16
  pub queue : HasQueue m.state m.evt_queue_procer

-- The queue of a running manager.
pub running_queue :
    {tail_cells : ℕ} (m : Manager)
    → IsValid tail_cells m
    → m.state ≡ running
    → (q : EvtQueue) × (m.evt_queue_procer ≡ some (some q ∷ [])) × Ring.IsValid q
running_queue m v e =
    found m.evt_queue_procer (subst (λ s. HasQueue s m.evt_queue_procer) e v.queue)
  where
    found :
        (queues : Option (Slots EvtQueue))
        → HasQueue running queues
        → (q : EvtQueue) × (queues ≡ some (some q ∷ [])) × Ring.IsValid q
    found none no_queue = elim no_queue [ ]
    found (some queues) (q, same, valid) = (q, ap some same, valid)

pub initial-IsValid : (tail_cells : ℕ) → IsValid tail_cells initial
initial-IsValid tail_cells = record {
  opers = tt;
  pub_rows = tt;
  sub_rows = tt;
  one_queue = refl;
  deep = omega arith;
  deep_small = omega arith;
  queue = tt;
}

pub State-cases : (s : State) → (s ≡ uninited) ⊎ ((s ≡ ready) ⊎ (s ≡ running))
State-cases uninited = inl refl
State-cases ready = inr (inl refl)
State-cases running = inr (inr refl)
