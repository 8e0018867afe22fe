-- ===== src/Evt/Locks.antt =====
-- The lock of the subscription table of PlatIF_EVT/PlatIF_Event.c, `_mEvtPSDB_SubTableRWLock`,
-- under all interleavings of the processor's thread with clients that post, subscribe, unsubscribe,
-- disable and enable. A step is a section under one lock. The thread reads the table under the lock
-- and keeps it during callbacks; which callbacks it calls is left open here. `pthread_cancel` ends
-- the thread where it is documented to, at a cancellation point: in `pthread_cond_wait`, or in one
-- that a callback reaches, and releases no lock.
pub mod Readers
mod Tests
use freely_craft_codes.Prelude.{
  ℕ, zero, suc, ◌+◌, ◌≡◌, Bool, Option, none, some, List, Run, ok, ◌>>=◌,
}
use freely_craft_codes.ThinkOs.{TosResult, success}
use freely_craft_codes.Evt.Types.{EvtDesc, EvtSubArgs}
use freely_craft_codes.Evt.Queue.{EvtQueue, take_head}
use freely_craft_codes.Evt.Manager.{Manager}
use freely_craft_codes.Evt.Manager.Lifecycle.{enable_evt_manger, disable_evt_manger}
use freely_craft_codes.Evt.Manager.Interface.{
  sub_evts, unsub_evts, post_evt, first_queue, with_first_queue,
}

-- Where the thread is: about to lock the queue, in `pthread_cond_wait`, about to lock the table,
-- between two callbacks, in a callback, or not there.
pub data Point : Type 0 where
  entering waiting reading dispatching calling ended : Point

-- `readers` is the number of times that the table is locked for reading.
pub record System : Type 0 where
  pub point : Point
  pub readers : ℕ
  pub manager : Manager

pub data Step (tail_cells : ℕ) : System → System → Type 0 where
  takes :
      {s : System} {q q' : EvtQueue} {index : ℕ}
      → s.point ≡ entering
      → first_queue s.manager ≡ ok q
      → take_head q ≡ ok (some (index, q'))
      → Step tail_cells s (record s { point = reading; manager = with_first_queue q' s.manager })
  waits :
      {s : System} {q : EvtQueue}
      → s.point ≡ entering
      → first_queue s.manager ≡ ok q
      → take_head q ≡ ok none
      → Step tail_cells s (record s { point = waiting })
  wakes : {s : System} → s.point ≡ waiting → Step tail_cells s (record s { point = entering })
  begins :
      {s : System}
      → s.point ≡ reading
      → Step tail_cells s (record s { point = dispatching; readers = suc s.readers })
  calls : {s : System} → s.point ≡ dispatching → Step tail_cells s (record s { point = calling })
  returns : {s : System} → s.point ≡ calling → Step tail_cells s (record s { point = dispatching })
  finishes :
      {s : System} {n : ℕ}
      → s.point ≡ dispatching
      → s.readers ≡ suc n
      → Step tail_cells s (record s { point = entering; readers = n })
  posts :
      {s : System} {r : TosResult × EvtDesc × Manager} (evt_puber_id : ℕ) (desc : EvtDesc)
      → post_evt evt_puber_id desc s.manager ≡ ok r
      → Step tail_cells s (record s { manager = r.2 })
  subscribes :
      {s : System} {r : TosResult × Manager} (calloc_ok malloc_ok : Bool) (evt_suber_id : ℕ)
      (evt_ids : List ℕ) (num_ids : ℕ) (args : EvtSubArgs)
      → s.readers ≡ 0
      → sub_evts tail_cells calloc_ok malloc_ok evt_suber_id evt_ids num_ids args s.manager ≡ ok r
      → Step tail_cells s (record s { manager = r.1 })
  unsubscribes :
      {s : System} {m : Manager} (evt_oper_id : ℕ)
      → s.readers ≡ 0
      → unsub_evts evt_oper_id s.manager ≡ ok m
      → Step tail_cells s (record s { manager = m })
  disables_waiting :
      {s : System} {m : Manager}
      → s.point ≡ waiting
      → disable_evt_manger s.manager ≡ ok m
      → Step tail_cells s (record s { point = ended; manager = m })
  disables_calling :
      {s : System} {m : Manager}
      → s.point ≡ calling
      → disable_evt_manger s.manager ≡ ok m
      → Step tail_cells s (record s { point = ended; manager = m })
  enables :
      {s : System} {m : Manager} (calloc_ok : Bool)
      → s.point ≡ ended
      → enable_evt_manger calloc_ok s.manager ≡ ok (success, m)
      → Step tail_cells s (record s { point = entering; manager = m })

pub data Steps (tail_cells : ℕ) : System → System → Type 0 where
  here : {a : System} → Steps tail_cells a a
  onward : {a b c : System} → Step tail_cells a b → Steps tail_cells b c → Steps tail_cells a c

-- Steps that end the thread in a callback.
abbrev pub leaks_by : (tail_cells : ℕ) (a b : System) → Step tail_cells a b → ℕ
leaks_by _ _ _ (disables_calling e f) = 1
leaks_by _ _ _ _ = 0

-- Subscriptions and unsubscriptions that got the lock.
abbrev pub writes_by : (tail_cells : ℕ) (a b : System) → Step tail_cells a b → ℕ
writes_by _ _ _ (subscribes calloc_ok malloc_ok evt_suber_id evt_ids num_ids args e f) = 1
writes_by _ _ _ (unsubscribes evt_oper_id e f) = 1
writes_by _ _ _ _ = 0

abbrev pub leaks_in : {tail_cells : ℕ} {a b : System} → Steps tail_cells a b → ℕ
leaks_in here = 0
leaks_in {tail_cells} (onward {a} {b} step steps) = leaks_by tail_cells a b step + leaks_in steps

abbrev pub writes_in : {tail_cells : ℕ} {a b : System} → Steps tail_cells a b → ℕ
writes_in here = 0
writes_in {tail_cells} (onward {a} {b} step steps) = writes_by tail_cells a b step + writes_in steps
