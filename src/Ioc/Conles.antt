-- ===== src/Ioc/Conles.antt =====
-- The subscribers of the connection-less mode in PlatIF_IOC/_PlatIF_IOC_EventTest.cxx. `none` for a
-- result is `TOS_abortNotTested()`, which ends the program. A NULL callback or private pointer is 0.
-- Whether `malloc` succeeds is an argument, and so is whether the allocation of the table and of its
-- two keys does.
pub mod Count
pub mod Subscribe
pub mod Unsubscribe
mod Tests
use freely_craft_codes.Prelude.{
  ℕ, zero, suc, ◌+◌, ◌-◌, ◌^◌, Bool, true, false, not, ◌&&◌, ◌||◌, Option, none, some, List, Run,
  ok, fault, or_fault, get_elem?, set, take, replicate, length, leb, ◌==◌, if◌then◌else◌, ◌>>=◌,
}
use freely_craft_codes.ThinkOs.{
  TosResult, success, not_found, not_enough_resource, not_tested_bug, ulong,
}
use freely_craft_codes.Ioc.Mailbox.{EvtDesc, Mailbox, evt_queue_max}
use freely_craft_codes.Ioc.Cache.{Cache, evt_cached_max, cached_num}

-- `IOC_EvtSubArgs_T`: the ids are the caller's array.
pub record SubArgs : Type 0 where
  pub cb_proc_evt : ℕ
  pub cb_priv : ℕ
  pub evt_num : ℕ
  pub evt_ids : List ℕ

-- `IOC_EvtUnsubArgs_T`
pub record UnsubArgs : Type 0 where
  pub cb_proc_evt : ℕ
  pub cb_priv : ℕ

-- `_IOC_ConlesEventSuber_T`: its arguments, whether it has a thread and has told it to exit, its
-- queue and the events that its thread has cached.
pub record Suber : Type 0 where
  pub should_exit : Bool
  pub cb_proc_evt : ℕ
  pub cb_priv : ℕ
  pub evt_num : ℕ
  pub evt_ids : Option (List ℕ)
  pub has_thread : Bool
  pub mailbox : Mailbox
  pub cache : Cache

abbrev zero_desc : EvtDesc
zero_desc = record { seq_id = 0; flags = 0; evt_id = 0 }

-- What `calloc` and `memset` leave.
abbrev pub zero_suber : Suber
zero_suber = record {
  should_exit = false;
  cb_proc_evt = 0;
  cb_priv = 0;
  evt_num = 0;
  evt_ids = none;
  has_thread = false;
  mailbox = record {
    evt_post_cnt = 0;
    evt_proc_cnt = 0;
    evt_desc_queue = replicate evt_queue_max zero_desc;
  };
  cache = record {
    evt_post_cached_cnt = 0;
    evt_proc_cached_cnt = 0;
    evt_desc_cached_queue = replicate evt_cached_max zero_desc;
  };
}

-- `_IOC_ConlesEventContext_T`; `mutex_depth` counts how often the caller holds the recursive mutex.
pub record Context : Type 0 where
  pub mutex_depth : ℕ
  pub max_suber_num : ℕ
  pub cur_suber_num : ℕ
  pub evt_subers : Option (List Suber)
  pub is_sync_mode : Bool

-- `_mConlesEvtCtx`
abbrev pub initial : Context
initial = record {
  mutex_depth = 0;
  max_suber_num = 32;
  cur_suber_num = 0;
  evt_subers = none;
  is_sync_mode = false;
}

abbrev pub lock : Context → Context
lock c = record c { mutex_depth = c.mutex_depth + 1 }

abbrev pub unlock : Context → Context
unlock c = record c { mutex_depth = c.mutex_depth - 1 }

-- `for(; rounds left; idx++) if( test(subers[idx]) ) break;`
unfoldable pub find_suber : (Suber → Bool) → ℕ → ℕ → List Suber → Run (Option ℕ)
find_suber test zero idx subers = ok none
find_suber test (suc rounds) idx subers = elim (get_elem? subers idx) [
  | none ↦ fault
  | some suber ↦ elim (test suber) [
    | Bool.true ↦ ok (some idx)
    | Bool.false ↦ find_suber test rounds (suc idx) subers
  ]
]

abbrev pub is_free : Suber → Bool
is_free suber = suber.cb_proc_evt == 0

abbrev pub saved : SubArgs → Option (List ℕ) → Suber
saved args ids = record zero_suber {
  cb_proc_evt = args.cb_proc_evt;
  cb_priv = args.cb_priv;
  evt_num = args.evt_num;
  evt_ids = ids;
}

-- The table, allocated at the first subscription.
abbrev pub subers_of : Bool → Context → Option (List Suber)
subers_of table_ok c = elim c.evt_subers [
  | some subers ↦ some subers
  | none ↦ if table_ok then some (replicate c.max_suber_num zero_suber) else none
]

abbrev pub with_subers : List Suber → Context → Context
with_subers subers c = record c { evt_subers = some subers }

-- What follows the search for a free place, in the table `subers`.
unfoldable pub sub_at :
    Bool → SubArgs → List Suber → Option ℕ → Context → Run (Option (TosResult × Context))
sub_at malloc_ok args subers none c = ok (some (not_tested_bug, lock (with_subers subers c)))
sub_at malloc_ok args subers (some idx) c =
    if malloc_ok
    then (if leb args.evt_num (length args.evt_ids)
        then (let ids = take args.evt_num args.evt_ids in
            let c' = with_subers (set subers idx (saved args (some ids))) c in
            ok (some (success, unlock (record c' { cur_suber_num = ulong (c.cur_suber_num + 1) }))))
        else fault)
    else ok (some (not_tested_bug, unlock (with_subers (set subers idx (saved args none)) c)))

-- `__IOC_ConlesMode_subEVT`
unfoldable pub sub_evt : Bool → Bool → SubArgs → Context → Run (Option (TosResult × Context))
unfolding sub_at
sub_evt table_ok malloc_ok args unlocked =
    let c = lock unlocked in
    if leb c.max_suber_num c.cur_suber_num
    then ok (some (not_enough_resource, unlock c))
    else elim (subers_of table_ok c) [
      | none ↦ ok none
      | some subers ↦ do
        found ← find_suber is_free c.max_suber_num 0 subers
        sub_at malloc_ok args subers found c
    ]

-- A subscriber whose thread, if it has one, has exited: it has taken what was queued.
abbrev pub exited : Suber → Suber
exited suber =
    if suber.has_thread
    then record suber {
      should_exit = true;
      has_thread = false;
      mailbox = record suber.mailbox { evt_proc_cnt = suber.mailbox.evt_post_cnt };
    }
    else suber

-- Whether it exits when it is told to: with an event in its cache its replay is refused for as long
-- as the caller holds the mutex of the context, and it loops for ever, or aborts the program
-- (Ioc/Thread). What it still takes must put nothing there.
abbrev pub joins : Suber → Bool
joins suber = cached_num suber.cache == 0 || not suber.has_thread

-- `__IOC_ConlesEvent_stopASyncThread`: the subscriber once `pthread_join` has returned, `none` if it
-- never does.
unfoldable pub stopped : Suber → Option Suber
stopped suber = if joins suber then some (exited suber) else none

abbrev pub cleared : Suber → Suber
cleared suber = record suber { evt_ids = none; cb_proc_evt = 0; cb_priv = 0 }

-- What `unsubEVT ALL` does to one subscriber, once it is stopped.
abbrev pub cleared_by_all : Suber → Suber
cleared_by_all suber = elim suber.evt_ids [ none ↦ suber | some ids ↦ cleared suber ]

-- Its loop: the rounds left, `Idx`, the table.
unfoldable pub clear_all : ℕ → ℕ → List Suber → Run (Option (List Suber))
clear_all zero idx subers = ok (some subers)
clear_all (suc rounds) idx subers = do
  suber ← or_fault (get_elem? subers idx)
  elim (stopped suber) [
    | none ↦ ok none
    | some s ↦ clear_all rounds (suc idx) (set subers idx (cleared_by_all s))
  ]

-- The place of the callback and its private pointer is cleared, if there is one.
unfoldable pub unsub_at : List Suber → Option ℕ → Context → Run (Option Context)
unsub_at subers none c = ok (some c)
unsub_at subers (some idx) c = do
  suber ← or_fault (get_elem? subers idx)
  elim (stopped suber) [
    | none ↦ ok none
    | some s ↦ ok (
        some (record c {
          evt_subers = some (set subers idx (cleared s));
          cur_suber_num = ulong (c.cur_suber_num + (2 ^ 64 - 1));
        }))
  ]

abbrev pub is_of : UnsubArgs → Suber → Bool
is_of args suber = suber.cb_proc_evt == args.cb_proc_evt && suber.cb_priv == args.cb_priv

-- `__IOC_ConlesMode_unsubEVT`; `none` is a NULL for its arguments, and for its result that it never
-- returns. It returns TOS_RESULT_SUCCESS at its end, whatever `Result` says.
unfoldable pub unsub_evt : Option UnsubArgs → Context → Run (Option (TosResult × Context))
unfolding clear_all unsub_at
unsub_evt args unlocked =
    let c = lock unlocked in
    elim c.evt_subers [
      | none ↦ ok (some (not_found, unlock c))
      | some subers ↦ elim args [
        | none ↦ (do
          all ← clear_all c.max_suber_num 0 subers
          elim all [
            | none ↦ ok none
            | some rest ↦
                ok (some (success, unlock (record c { evt_subers = some rest; cur_suber_num = 0 })))
          ])
        | some a ↦ (do
          found ← find_suber (is_of a) c.max_suber_num 0 subers
          unsubed ← unsub_at subers found c
          elim unsubed [ none ↦ ok none | some c' ↦ ok (some (success, unlock c')) ])
      ]
    ]
