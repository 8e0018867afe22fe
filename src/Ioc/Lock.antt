-- ===== src/Ioc/Lock.antt =====
-- How `__IOC_ConlesMode_postEVT` of PlatIF_IOC/_PlatIF_IOC_EventTest.cxx reads its options
-- (PlatIF_IOC/PlatIF_IOC.h) and gets the mutex of the context. What one call of a pthread function
-- returns, and what the clock says, is an argument.
pub mod Deadline
mod Tests
use freely_craft_codes.Prelude.{
  ℕ, ◌+◌, ◌*◌, ◌/◌, ◌%◌, ◌^◌, Bool, true, false, not, ◌&&◌, ◌||◌, Option, none, some, List, ◌∷◌, [],
  ltb, leb, ◌==◌, bit_and, if◌then◌else◌,
}
use freely_craft_codes.ThinkOs.{TosResult, timeout, bug, u32}

-- `IOC_OptionsID_T`
abbrev pub optid_timeout : ℕ
optid_timeout = 1

abbrev pub optid_sync_mode : ℕ
optid_sync_mode = 2

-- `IOC_Options_T`, with the one member of its union that the code reads.
pub record Options : Type 0 where
  pub ids : ℕ
  pub timeout_us : ℕ

abbrev pub has_id : ℕ → Options → Bool
has_id id options = not (bit_and options.ids id == 0)

-- The local variables that the options set.
pub record Mode : Type 0 where
  pub is_sync_mode : Bool
  pub is_non_block : Bool
  pub is_timeout : Bool
  pub timeout_us : ℕ

abbrev pub default_mode : Mode
default_mode = record {
  is_sync_mode = false;
  is_non_block = false;
  is_timeout = false;
  timeout_us = 0;
}

abbrev pub read_sync_mode : Options → Mode → Mode
read_sync_mode options mode =
    if has_id optid_sync_mode options then record mode { is_sync_mode = true } else mode

abbrev pub read_timeout : Options → Mode → Mode
read_timeout options mode =
    if has_id optid_timeout options
    then (if options.timeout_us == 0
        then record mode { timeout_us = options.timeout_us; is_non_block = true }
        else record mode { timeout_us = options.timeout_us; is_timeout = true })
    else mode

unfoldable pub mode_of : Option Options → Mode
mode_of none = default_mode
mode_of (some options) = read_timeout options (read_sync_mode options default_mode)

-- What locking a mutex returns: 0, EBUSY, ETIMEDOUT or another error.
pub data LockReply : Type 0 where
  locked busy timed_out lock_error : LockReply

-- `struct timespec`
pub record Timespec : Type 0 where
  pub tv_sec : ℕ
  pub tv_nsec : ℕ

-- The time until which the lock is tried. `TimeoutUS * 1000` is computed on 32 bits.
unfoldable pub abs_time : ℕ → Timespec → Timespec
abs_time timeout_us now =
    let nsec = now.tv_nsec + u32 (timeout_us * 1000) in
    record { tv_sec = now.tv_sec + nsec / 1000000000; tv_nsec = nsec % 1000000000 }

abbrev pub is_past : Timespec → Timespec → Bool
is_past abs_timeout ts =
    ltb abs_timeout.tv_sec ts.tv_sec
    || (ts.tv_sec == abs_timeout.tv_sec && leb abs_timeout.tv_nsec ts.tv_nsec)

-- `pthread_mutex_timedlock`, where the system has none: what `pthread_mutex_trylock` returns in each
-- round, and what the clock says after it. `none` while it goes on.
unfoldable pub timed_lock : Timespec → List (LockReply × Timespec) → Option LockReply
timed_lock abs_timeout [] = none
timed_lock abs_timeout ((busy, ts) ∷ tries) =
    if is_past abs_timeout ts then some timed_out else timed_lock abs_timeout tries
timed_lock abs_timeout ((locked, ts) ∷ tries) = some locked
timed_lock abs_timeout ((timed_out, ts) ∷ tries) = some timed_out
timed_lock abs_timeout ((lock_error, ts) ∷ tries) = some lock_error

-- The two keys of the calling thread: the flag, and the subscriber whose thread it is, by its place.
pub record Keys : Type 0 where
  pub flag : ℕ
  pub evt_suber : Option ℕ

-- A thread that has set none.
abbrev pub no_keys : Keys
no_keys = record { flag = 0; evt_suber = none }

-- `_IOC_CONLES_ASYNC_EVENT_THREAD_FLAG_KEY`
abbrev pub thread_flag : ℕ
thread_flag = 0x20240211

-- `__IOC_ConlesMode_setASyncEventThreadSpecificKey`
abbrev pub set_keys : ℕ → Keys → Keys
set_keys idx keys = record { flag = thread_flag; evt_suber = some idx }

-- `__IOC_ConlesMode_isAsyncEventThreadContext`
abbrev pub is_async_thread : Keys → Bool
is_async_thread keys = keys.flag == thread_flag

-- The mutex is held, or the post ends with this answer, or its event goes to the cache.
pub data Admission : Type 0 where
  admitted : Admission
  answered : TosResult → Admission
  to_cache : Admission

abbrev pub or_bug : LockReply → Admission
or_bug locked = admitted
or_bug busy = answered bug
or_bug timed_out = answered bug
or_bug lock_error = answered bug

abbrev pub try_lock : LockReply → Admission
try_lock busy = answered timeout
try_lock reply = or_bug reply

abbrev pub lock_until : LockReply → Admission
lock_until timed_out = answered timeout
lock_until reply = or_bug reply

abbrev pub lock_in_thread : LockReply → Admission
lock_in_thread locked = admitted
lock_in_thread reply = to_cache

-- The four ways to lock; `reply` is what the one that is tried returns.
unfoldable pub admit : Mode → Keys → LockReply → Admission
admit mode keys reply =
    if mode.is_non_block
    then try_lock reply
    else if mode.is_timeout
    then lock_until reply
    else if is_async_thread keys
    then lock_in_thread reply
    else or_bug reply
